-- ===== src/Storage/Images/Synced.antt =====
-- The table of images after a report of a node.
use server_vps.Prelude.{
  ℕ, String, str_eq, ◌≡◌, refl, sym, ap, ◌∙◌, inl, inr, Bool, true, false, not, ◌&&◌, ◌||◌, Option,
  none, some, List, [], ◌∷◌, Text, text_eq, eq_of_text_eq, strip, is_empty, arith, Bool-cases,
  Option-cases, ◌==◌, ==_iff, if◌then◌else◌, select, find, exists, delete,
}
use mathlib.Core.Path.{subst}
use server_vps.Storage.Images.Keys.{row_at, key_of, row_at-own, row_at-other, row_at-upsert_image}
use server_vps.Storage.Images.{
  IncusImage, IncusImageReport, is_some, is_among, has_key, image_row, upsert_image, upsert_images,
  seen_fingerprints, sync_node_images,
}

-- The last report of a fingerprint that is not blank.
unfoldable pub last_report : Text → List IncusImageReport → Option IncusImageReport
last_report fingerprint [] = none
last_report fingerprint (report ∷ reports) =
    let rest = last_report fingerprint reports in
    let own = strip report.fingerprint in
    elim rest [
      | some later ↦ some later
      | none ↦ if text_eq own fingerprint && not (is_empty own) then some report else none
    ]

-- What a report pass leaves at a key of the node.
unfoldable pub reported_at :
    ℕ → ℕ → Text → List IncusImageReport → Option IncusImage → Option IncusImage
reported_at node_id ts fingerprint reports before = elim (last_report fingerprint reports) [
  | none ↦ before
  | some report ↦ some (image_row node_id ts fingerprint report)
]

reported_at_none : (n ts : ℕ) (g : Text) (z : Option IncusImage) → z ≡ reported_at n ts g [] z
unfolding reported_at last_report
reported_at_none n ts g z = refl

module _ (n ts : ℕ) where
  reported_at-cons :
      (g : Text) (r : IncusImageReport) (rs : List IncusImageReport) (z : Option IncusImage)
      → reported_at n ts g (r ∷ rs) z
        ≡ reported_at n ts g rs (
            if text_eq (strip r.fingerprint) g && not (is_empty (strip r.fingerprint))
            then some (image_row n ts g r)
            else z)
  unfolding reported_at last_report
  reported_at-cons g r rs z =
      let test = text_eq (strip r.fingerprint) g && not (is_empty (strip r.fingerprint)) in
      elim (Option-cases (last_report g rs)) [
        | inr (later, e) ↦ ground (arith, e)
        | inl e ↦ elim (Bool-cases test) [
          | inl h ↦ ground (arith, e, h)
          | inr h ↦ ground (arith, e, h)
        ]
      ]

  row_at-step :
      (g : Text) (r : IncusImageReport) (xs : List IncusImage)
      → row_at n g (
          if is_empty (strip r.fingerprint)
          then xs
          else upsert_image n ts (strip r.fingerprint) r xs)
        ≡ (if text_eq (strip r.fingerprint) g && not (is_empty (strip r.fingerprint))
            then some (image_row n ts g r)
            else row_at n g xs)
  row_at-step g r xs =
      let fp = strip r.fingerprint in
      elim (Bool-cases (is_empty fp)) [
        | inl blank ↦ ground (arith, blank)
        | inr named ↦ elim (Bool-cases (text_eq fp g)) [
          | inr e ↦ ground (arith, named, e, row_at-upsert_image n ts fp r n g xs)
          | inl e ↦
              let at = eq_of_text_eq fp g e in
              let own : row_at n g (upsert_image n ts fp r xs) ≡ some (image_row n ts g r) =
                subst (λ k. row_at n k (upsert_image n ts fp r xs) ≡ some (image_row n ts k r)) at
                  (row_at-own n ts fp r xs) in
              ground (arith, named, e, own)
        ]
      ]

  row_at-upsert_images :
      (g : Text) (reports : List IncusImageReport) (xs : List IncusImage)
      → row_at n g (upsert_images n ts reports xs) ≡ reported_at n ts g reports (row_at n g xs)
  unfolding upsert_images
  row_at-upsert_images g [] xs = reported_at_none n ts g (row_at n g xs)
  row_at-upsert_images g (r ∷ rs) xs =
      row_at-upsert_images g rs (
        if is_empty (strip r.fingerprint) then xs else upsert_image n ts (strip r.fingerprint) r xs)
      ∙ (ap (reported_at n ts g rs) (row_at-step g r xs)
          ∙ sym (reported_at-cons g r rs (row_at n g xs)))

  row_at-elsewhere :
      (m : ℕ) (g : Text) (reports : List IncusImageReport) (xs : List IncusImage)
      → (n == m) ≡ false
      → row_at m g (upsert_images n ts reports xs) ≡ row_at m g xs
  unfolding upsert_images
  row_at-elsewhere m g [] xs e = refl
  row_at-elsewhere m g (r ∷ rs) xs e = elim (Bool-cases (is_empty (strip r.fingerprint))) [
    | inl blank ↦ ground (arith, blank, row_at-elsewhere m g rs xs e)
    | inr named ↦
        let fp = strip r.fingerprint in
        ground (
          arith,
          named,
          e,
          row_at-elsewhere m g rs (upsert_image n ts fp r xs) e,
          row_at-other n ts fp r m g xs (ground (arith, e)),
        )
  ]

-- The rows of node n whose fingerprint p holds of are deleted, and no other.
module _ (n : ℕ) (p : Text → Bool) where
  abbrev goes : IncusImage → Bool
  goes row = row.node_id == n && p row.fingerprint

  row_at-delete :
      (m : ℕ) (g : Text) (xs : List IncusImage)
      → row_at m g (delete goes xs) ≡ (if m == n && p g then none else row_at m g xs)
  unfolding row_at delete select find
  row_at-delete m g [] = elim (Bool-cases (m == n && p g)) [ inl h ↦ rw h refl | inr h ↦ rw h refl ]
  row_at-delete m g (x ∷ xs) = elim (Bool-cases (has_key m g x)) [
    | inr e ↦ elim (Bool-cases (goes x)) [
      | inl h ↦ ground (arith, e, h, row_at-delete m g xs)
      | inr h ↦ ground (arith, e, h, row_at-delete m g xs)
    ]
    | inl e ↦
        let (on, at) = key_of m g x e in
        let test : goes x ≡ (m == n && p g) = rw on (rw at refl) in
        elim (Bool-cases (goes x)) [
          | inl h ↦ ground (arith, e, h, sym test, row_at-delete m g xs)
          | inr h ↦ ground (arith, e, h, sym test, row_at-delete m g xs)
        ]
  ]

is_among-last_report :
    (g : Text) (reports : List IncusImageReport)
    → is_among g (seen_fingerprints reports) ≡ is_some (last_report g reports)
unfolding is_among seen_fingerprints is_some last_report exists
is_among-last_report g [] = refl
is_among-last_report g (r ∷ rs) = ground (arith, is_among-last_report g rs)

delete_same :
    (p q : IncusImage → Bool) (xs : List IncusImage)
    → ((x : IncusImage) → p x ≡ q x)
    → delete p xs ≡ delete q xs
unfolding delete select
delete_same p q [] h = refl
delete_same p q (x ∷ xs) h = ground (arith, h x, delete_same p q xs h)

abbrev unseen : List IncusImageReport → Text → Bool
unseen reports fingerprint = not (is_among fingerprint (seen_fingerprints reports))

among_nothing : (g : Text) (seen : List Text) → is_empty seen ≡ true → is_among g seen ≡ false
unfolding is_among exists
among_nothing g [] h = refl
among_nothing g (x ∷ xs) h = ground (arith, h)

-- The two statements that delete do what the first says, where nothing was seen.
sync_node_images-delete :
    (n ts : ℕ) (reports : List IncusImageReport) (status : String) (xs : List IncusImage)
    → (str_eq status "unavailable" || str_eq status "") ≡ false
    → sync_node_images n ts reports status xs
      ≡ delete (goes n (unseen reports)) (upsert_images n ts reports xs)
unfolding sync_node_images
sync_node_images-delete n ts reports status xs up =
    let seen = seen_fingerprints reports in
    let all = upsert_images n ts reports xs in
    elim (Bool-cases (is_empty seen)) [
      | inr e ↦ ground (arith, up, e)
      | inl e ↦
          let same : delete (λ row. row.node_id == n) all ≡ delete (goes n (unseen reports)) all =
            delete_same (λ row. row.node_id == n) (goes n (unseen reports)) all
              (λ row. ground (arith, among_nothing row.fingerprint seen e)) in
          ground (arith, up, e, same)
    ]

kept_own :
    (n ts : ℕ) (g : Text) (reports : List IncusImageReport) (xs : List IncusImage)
    → (if unseen reports g then none else row_at n g (upsert_images n ts reports xs))
      ≡ reported_at n ts g reports none
unfolding reported_at is_some
kept_own n ts g reports xs =
    let written = row_at-upsert_images n ts g reports xs in
    let seen = is_among-last_report g reports in
    elim (Option-cases (last_report g reports)) [
      | inl e ↦ ground (arith, e, seen)
      | inr (r, e) ↦ ground (arith, e, seen, written)
    ]

-- Where Incus answers, a report pass of node n leaves at each key of n the row of the last report of that fingerprint,
-- stripped and not blank, and none where there is no such report; the rows of the other nodes stay as they were.
pub sync_node_images-row_at :
    (n ts m : ℕ) (g : Text) (reports : List IncusImageReport) (status : String)
    (xs : List IncusImage)
    → (str_eq status "unavailable" || str_eq status "") ≡ false
    → row_at m g (sync_node_images n ts reports status xs)
      ≡ (if m == n then reported_at n ts g reports none else row_at m g xs)
sync_node_images-row_at n ts m g reports status xs up =
    let all = upsert_images n ts reports xs in
    let gone =
      ap (row_at m g) (sync_node_images-delete n ts reports status xs up)
      ∙ row_at-delete n (unseen reports) m g all in
    gone ∙ elim (Bool-cases (m == n)) [
      | inr e ↦
          let apart : (n == m) ≡ false = ground (arith, e) in
          rw e (row_at-elsewhere n ts m g reports xs apart)
      | inl e ↦
          let on : m ≡ n = (==_iff m n).0 e in
          rw e (
            subst
              (λ k.
                (if unseen reports g then none else row_at k g all)
                ≡ reported_at n ts g reports none)
              (sym on) (kept_own n ts g reports xs))
    ]

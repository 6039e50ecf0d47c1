-- ===== src/Storage/Images/Keys.antt =====
-- The row of a key, where a report is written.
use mathlib.Core.Path.{subst}
use server_vps.Prelude.{
  ℕ, ◌≡◌, refl, ap, ◌∙◌, inl, inr, Bool, true, false, ◌&&◌, Option, none, some, List, [], ◌∷◌, ◌++◌,
  Text, text_eq, text_eq_refl, eq_of_text_eq, arith, Bool-cases, ◌==◌, ==_iff, if◌then◌else◌, find,
  exists, update,
}
use server_vps.Storage.Images.{IncusImage, IncusImageReport, has_key, image_row, upsert_image}

-- The row of a node and a fingerprint.
unfoldable pub row_at : ℕ → Text → List IncusImage → Option IncusImage
row_at node_id fingerprint images = find (has_key node_id fingerprint) images

find-append :
    (p : IncusImage → Bool) (xs : List IncusImage) (y : IncusImage)
    → find p (xs ++ y ∷ [])
      ≡ elim (find p xs) [ none ↦ (if p y then some y else none) | some x ↦ some x ]
unfolding find
find-append p [] y = refl
find-append p (x ∷ xs) y = elim (Bool-cases (p x)) [
  | inl e ↦ ground (arith, e)
  | inr e ↦ ground (arith, e, find-append p xs y)
]

find-none : (p : IncusImage → Bool) (xs : List IncusImage) → exists p xs ≡ false → find p xs ≡ none
unfolding find exists
find-none p [] h = refl
find-none p (x ∷ xs) h = ground (arith, h, find-none p xs)

pub key_of :
    (n : ℕ) (fp : Text) (x : IncusImage)
    → has_key n fp x ≡ true
    → (x.node_id ≡ n) × (x.fingerprint ≡ fp)
unfolding has_key
key_of n fp x h = (ground (arith, h), eq_of_text_eq x.fingerprint fp (ground (arith, h)))

-- A key that is not the one written is not a key of the row written.
other_key :
    (n m : ℕ) (f g : Text) (x : IncusImage)
    → (n == m && text_eq f g) ≡ false
    → has_key n f x ≡ true
    → has_key m g x ≡ false
unfolding has_key
other_key n m f g x apart h =
    let (on, at) = key_of n f x h in
    let test : (x.node_id == m && text_eq x.fingerprint g) ≡ false = rw on (rw at apart) in test

module _ (n ts : ℕ) (f : Text) (report : IncusImageReport) where
  abbrev written : IncusImage → IncusImage
  written row = record row {
    aliases = report.aliases;
    description = report.description;
    architecture = report.architecture;
    updated_at = ts;
  }

  written-image_row : (x : IncusImage) → has_key n f x ≡ true → written x ≡ image_row n ts f report
  unfolding image_row
  written-image_row x h =
      let (on, at) = key_of n f x h in
      λ t. record {
        node_id = on t;
        fingerprint = at t;
        aliases = report.aliases;
        description = report.description;
        architecture = report.architecture;
        updated_at = ts;
      }

  key-written : (m : ℕ) (g : Text) (x : IncusImage) → has_key m g (written x) ≡ has_key m g x
  unfolding has_key
  key-written m g x = refl

  same_key_updated :
      (xs : List IncusImage)
      → exists (has_key n f) xs ≡ true
      → find (has_key n f) (update (has_key n f) written xs) ≡ some (image_row n ts f report)
  unfolding find exists update
  same_key_updated [] h = ground (arith, h)
  same_key_updated (x ∷ xs) h = elim (Bool-cases (has_key n f x)) [
    | inl e ↦ rw e (rw (key-written n f x) (rw e (ap some (written-image_row x e))))
    | inr e ↦ ground (arith, e, h, same_key_updated xs)
  ]

  other_key_updated :
      (m : ℕ) (g : Text) (xs : List IncusImage)
      → (n == m && text_eq f g) ≡ false
      → find (has_key m g) (update (has_key n f) written xs) ≡ find (has_key m g) xs
  unfolding find update
  other_key_updated m g [] apart = refl
  other_key_updated m g (x ∷ xs) apart = elim (Bool-cases (has_key n f x)) [
    | inl e ↦
        let off = other_key n m f g x apart e in
        rw e (rw (key-written m g x) (rw off (other_key_updated m g xs apart)))
    | inr e ↦ ground (arith, e, other_key_updated m g xs apart)
  ]

  key_of_row : (m : ℕ) (g : Text) → has_key m g (image_row n ts f report) ≡ (n == m && text_eq f g)
  unfolding has_key image_row
  key_of_row m g = refl

  pub row_at-own :
      (xs : List IncusImage)
      → row_at n f (upsert_image n ts f report xs) ≡ some (image_row n ts f report)
  unfolding row_at upsert_image
  row_at-own xs = elim (Bool-cases (exists (has_key n f) xs)) [
    | inl present ↦ ground (arith, present, same_key_updated xs present)
    | inr absent ↦
        let row = image_row n ts f report in
        let on : (n == n) ≡ true = (==_iff n n).1 refl in
        let test : (n == n && text_eq f f) ≡ true = rw on (text_eq_refl f) in
        let hit : has_key n f row ≡ true = key_of_row n f ∙ test in
        let miss = find-none (has_key n f) xs absent in
        rw absent (rw (find-append (has_key n f) xs row) (rw miss (rw hit refl)))
  ]

  pub row_at-other :
      (m : ℕ) (g : Text) (xs : List IncusImage)
      → (n == m && text_eq f g) ≡ false
      → row_at m g (upsert_image n ts f report xs) ≡ row_at m g xs
  unfolding row_at upsert_image
  row_at-other m g xs e = elim (Bool-cases (exists (has_key n f) xs)) [
    | inl present ↦ ground (arith, present, other_key_updated m g xs e)
    | inr absent ↦
        let row = image_row n ts f report in
        let off : has_key m g row ≡ false = key_of_row m g ∙ e in
        ground (arith, absent, find-append (has_key m g) xs row, off)
  ]

  pub row_at-upsert_image :
      (m : ℕ) (g : Text) (xs : List IncusImage)
      → row_at m g (upsert_image n ts f report xs)
        ≡ (if n == m && text_eq f g then some (image_row n ts f report) else row_at m g xs)
  row_at-upsert_image m g xs = elim (Bool-cases (n == m && text_eq f g)) [
    | inl e ↦
        let on : n ≡ m = (==_iff n m).0 (ground (arith, e)) in
        let at : f ≡ g = eq_of_text_eq f g (ground (arith, e)) in
        rw e (
          subst (λ k. row_at k g (upsert_image n ts f report xs) ≡ some (image_row n ts f report))
            on
            (subst
              (λ k. row_at n k (upsert_image n ts f report xs) ≡ some (image_row n ts f report)) at
              (row_at-own xs)))
    | inr e ↦ ground (arith, e, row_at-other m g xs e)
  ]

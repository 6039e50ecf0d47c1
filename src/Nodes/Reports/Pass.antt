-- ===== src/Nodes/Reports/Pass.antt =====
-- `sync_node_containers` as one pass over the table.
use server_vps.Prelude.{
  ℕ, String, str_eq, ◌≡◌, ◌≢◌, refl, sym, ap, ◌∙◌, inl, inr, Bool, false, ◌||◌, Option, none, some,
  List, [], ◌∷◌, map, Text, arith, leb, ◌==◌, ==_iff, if◌then◌else◌, select, exists, update,
  order_by, exists-order_by, IsIn-order_by, IsIn-select, IsIn, All, All-of_IsIn, Pairwise,
  Pairwise-IsIn, exists_of_IsIn, select-IsIn, IsIn-of_exists, Dict, Bool-cases,
}
use server_vps.Database.{Db, Container}
use server_vps.Nodes.Reports.Rule.{passed, reported, passed-reported}
use server_vps.Nodes.Reports.{
  ContainerStateReport, by_name, is_downloader, sync_downloaders, verdict, apply_verdict, sync_rows,
  rows_of_node, sync_node_containers,
}

-- Two rows with ids of their own.
abbrev pub OwnId : Container → Container → Type 0
OwnId a b = a.id ≢ b.id

-- The updates of the loop, as they meet one row.
unfoldable touched : ℕ → Dict String ContainerStateReport → List Container → Container → Container
touched ts reports [] x = x
touched ts reports (row ∷ rows) x =
    touched ts reports rows (if x.id == row.id then apply_verdict ts (verdict reports row) x else x)

update-map :
    (p : Container → Bool) (f g : Container → Container) (xs : List Container)
    → map g (update p f xs) ≡ map (λ x. g (if p x then f x else x)) xs
unfolding update
update-map p f g [] = refl
update-map p f g (x ∷ xs) = ap (λ l. g (if p x then f x else x) ∷ l) (update-map p f g xs)

map_id : (xs : List Container) → xs ≡ map (λ x. x) xs
map_id [] = refl
map_id (x ∷ xs) = ap (λ l. x ∷ l) (map_id xs)

sync_rows-touched :
    (ts : ℕ) (reports : Dict String ContainerStateReport) (rows xs : List Container)
    → sync_rows ts reports rows xs ≡ map (touched ts reports rows) xs
unfolding sync_rows touched
sync_rows-touched ts reports [] xs = map_id xs
sync_rows-touched ts reports (row ∷ rows) xs =
    sync_rows-touched ts reports rows
      (update (λ c. c.id == row.id) (apply_verdict ts (verdict reports row)) xs)
    ∙ update-map (λ c. c.id == row.id) (apply_verdict ts (verdict reports row))
        (touched ts reports rows) xs

-- A verdict keeps the id, and changes nothing the second time.
apply_verdict_again :
    (ts : ℕ) (v : Option (String × Text)) (x : Container)
    → ((apply_verdict ts v x).id ≡ x.id)
      × (apply_verdict ts v (apply_verdict ts v x) ≡ apply_verdict ts v x)
unfolding apply_verdict
apply_verdict_again ts none x = (refl, refl)
apply_verdict_again ts (some (status, ip)) x = (refl, refl)

-- Whether a row with this id is the row x.
abbrev Same : Container → Container → Type 0
Same x row = x.id ≡ row.id → row ≡ x

touched_after :
    (ts : ℕ) (reports : Dict String ContainerStateReport) (rows : List Container) (x : Container)
    → All (Same x) rows
    → touched ts reports rows (apply_verdict ts (verdict reports x) x)
      ≡ apply_verdict ts (verdict reports x) x
unfolding touched
touched_after ts reports [] x h = refl
touched_after ts reports (row ∷ rows) x h =
    let y = apply_verdict ts (verdict reports x) x in
    let (own, again) = apply_verdict_again ts (verdict reports x) x in
    elim (Bool-cases (y.id == row.id)) [
      | inr e ↦ ground (arith, e, touched_after ts reports rows x h.1)
      | inl e ↦
          let at : row ≡ x = h.0 (sym own ∙ ((==_iff y.id row.id).0 e)) in
          let hit : apply_verdict ts (verdict reports row) y ≡ y = rw at again in
          ground (arith, e, hit, touched_after ts reports rows x h.1)
    ]

touched_once :
    (ts : ℕ) (reports : Dict String ContainerStateReport) (rows : List Container) (x : Container)
    → All (Same x) rows
    → touched ts reports rows x
      ≡ (if exists (λ row. x.id == row.id) rows then apply_verdict ts (verdict reports x) x else x)
unfolding touched exists
touched_once ts reports [] x h = refl
touched_once ts reports (row ∷ rows) x h = elim (Bool-cases (x.id == row.id)) [
  | inr e ↦ ground (arith, e, touched_once ts reports rows x h.1)
  | inl e ↦
      let at : row ≡ x = h.0 ((==_iff x.id row.id).0 e) in
      let hit : apply_verdict ts (verdict reports row) x ≡ apply_verdict ts (verdict reports x) x =
        rw at refl in
      ground (arith, e, hit, touched_after ts reports rows x h.1)
]

module _ (node_id ts : ℕ) (reports : Dict String ContainerStateReport) (xs : List Container)
    (own : Pairwise OwnId xs) where
  row_of :
      (x row : Container)
      → IsIn x xs
      → IsIn row (rows_of_node node_id xs)
      → (row.node_id ≡ node_id) × Same x row
  unfolding rows_of_node
  row_of x row i j =
      let before : Container → Container → Bool = λ a b. leb a.id b.id in
      let (test, k) =
        IsIn-select (λ (c : Container). c.node_id == node_id) xs row
          (IsIn-order_by before row (select (λ c. c.node_id == node_id) xs) j) in
      (
        (==_iff row.node_id node_id).0 test,
        λ e. elim (Pairwise-IsIn OwnId xs row x own k i) [
          | inl same ↦ same
          | inr (inl apart) ↦ absurd (apart (sym e))
          | inr (inr apart) ↦ absurd (apart e)
        ],
      )

  rows_of_node-exists :
      (x : Container)
      → IsIn x xs
      → exists (λ row. x.id == row.id) (rows_of_node node_id xs) ≡ (x.node_id == node_id)
  unfolding rows_of_node
  rows_of_node-exists x i =
      let before : Container → Container → Bool = λ a b. leb a.id b.id in
      let p : Container → Bool = λ row. x.id == row.id in
      let on_node : Container → Bool = λ c. c.node_id == node_id in
      let sorted : exists p (order_by before (select on_node xs)) ≡ exists p (select on_node xs) =
        exists-order_by before p (select on_node xs) in
      elim (Bool-cases (on_node x)) [
        | inl e ↦
            sorted
            ∙ (exists_of_IsIn p (select on_node xs) x (select-IsIn on_node xs x i e)
                  ((==_iff x.id x.id).1 refl)
                ∙ sym e)
        | inr e ↦ elim (Bool-cases (exists p (order_by before (select on_node xs)))) [
          | inr none_there ↦ none_there ∙ sym e
          | inl there ↦
              let (row, j, k) = IsIn-of_exists p (order_by before (select on_node xs)) there in
              let (here, same) = row_of x row i j in
              let at : row ≡ x = same ((==_iff x.id row.id).0 k) in
              absurd (ground (arith, e, here, at))
        ]
      ]

  touched-passed :
      (x : Container)
      → IsIn x xs
      → touched ts reports (rows_of_node node_id xs) x ≡ passed node_id ts reports x
  unfolding passed
  touched-passed x i = rw (← rows_of_node-exists x i) (
      touched_once ts reports (rows_of_node node_id xs) x
        (All-of_IsIn (Same x) (rows_of_node node_id xs) (λ row j. (row_of x row i j).1)))

map_same :
    (f g : Container → Container) (xs : List Container)
    → ((x : Container) → IsIn x xs → f x ≡ g x)
    → map f xs ≡ map g xs
map_same f g [] h = refl
map_same f g (x ∷ xs) h = λ t. h x (inl refl) t ∷ map_same f g xs (λ y i. h y (inr i)) t

sync_downloaders_none :
    (node_id ts : ℕ) (reports : List ContainerStateReport) (d : Db)
    → exists is_downloader reports ≡ false
    → sync_downloaders node_id ts reports d ≡ d
unfolding sync_downloaders exists
sync_downloaders_none node_id ts [] d h = refl
sync_downloaders_none node_id ts (r ∷ rs) d h =
    ground (arith, h, sync_downloaders_none node_id ts rs d)

-- Where the ids of the containers are distinct, Incus answers and no report is of the system's downloader, the two
-- loops over queries and updates do to each container of the table what `reported` says of it alone: nothing on
-- another node or in a waiting or failed status; else it is missing if no report has its name, and if the last
-- report of its name says running it runs at the address reported, if it says stopped, stopping, frozen or error
-- it is stopped without an address, and if it says anything else it stays as it was.
pub sync_node_containers-reported :
    (node_id ts : ℕ) (reports : List ContainerStateReport) (incus_status : String) (d : Db)
    → Pairwise OwnId d.containers
    → exists is_downloader reports ≡ false
    → (str_eq incus_status "unavailable" || str_eq incus_status "") ≡ false
    → sync_node_containers node_id ts reports incus_status d
      ≡ record d { containers = map (reported node_id ts reports) d.containers }
unfolding sync_node_containers
sync_node_containers-reported node_id ts reports incus_status d own users up =
    let same = sync_downloaders_none node_id ts reports d users in
    let table = by_name reports [] in
    let pass : sync_rows ts table (rows_of_node node_id d.containers) d.containers
        ≡ map (reported node_id ts reports) d.containers =
      sync_rows-touched ts table (rows_of_node node_id d.containers) d.containers
      ∙ (map_same (touched ts table (rows_of_node node_id d.containers)) (passed node_id ts table)
            d.containers (λ x i. touched-passed node_id ts table d.containers own x i)
          ∙ map_same (passed node_id ts table) (reported node_id ts reports) d.containers
              (λ x i. passed-reported node_id ts reports x)) in
    ground (arith, same, pass, up)

-- ===== src/Users/Access/Allowed.antt =====
-- The nodes that a user may use after an administrator has set them.
use server_vps.Prelude.{
  ℕ, ◌≡◌, refl, ap, ◌∙◌, inl, inr, Bool, true, false, not, some, List, [], ◌∷◌, ◌++◌, map, arith,
  is_empty, select, exists, delete, ◌==◌, ==_iff, if◌then◌else◌, All, Bool-cases, ok,
}
use server_vps.Database.{User}
use server_vps.Containers.Creation.{Site}
use server_vps.Containers.Creation.Usage.{allowed_node_ids_for_user}
use server_vps.Users.Access.{
  normalize_node_ids, has_node, validate_node_ids, keyed, replace_user_node_ids,
}

module _ {K : Type 0} (p : K × ℕ → Bool) where
  select-append : (xs ys : List (K × ℕ)) → select p (xs ++ ys) ≡ select p xs ++ select p ys
  unfolding select
  select-append [] ys = refl
  select-append (x ∷ xs) ys = ground (arith, select-append xs ys)

  select-delete : (xs : List (K × ℕ)) → select p (delete p xs) ≡ []
  unfolding delete select
  select-delete [] = refl
  select-delete (x ∷ xs) = ground (arith, select-delete xs)

  select-keyed :
      (key : K) (ids : List ℕ)
      → ((id : ℕ) → p (key, id) ≡ true)
      → select p (keyed key ids) ≡ keyed key ids
  unfolding select
  select-keyed key [] h = refl
  select-keyed key (id ∷ ids) h = ground (arith, h id, select-keyed key ids h)

  -- The rows of the key after the old ones are deleted and new ones inserted.
  replaced :
      (key : K) (ids : List ℕ) (xs : List (K × ℕ))
      → ((id : ℕ) → p (key, id) ≡ true)
      → select p (delete p xs ++ keyed key ids) ≡ keyed key ids
  replaced key ids xs h =
      select-append (delete p xs) (keyed key ids) ∙ rw (select-delete xs) (select-keyed key ids h)

map-keyed : {K : Type 0} (key : K) (ids : List ℕ) → map (λ (r : K × ℕ). r.1) (keyed key ids) ≡ ids
map-keyed key [] = refl
map-keyed key (id ∷ ids) = ap (λ l. id ∷ l) (map-keyed key ids)

is_empty-keyed : {K : Type 0} (key : K) (ids : List ℕ) → is_empty (keyed key ids) ≡ is_empty ids
is_empty-keyed key [] = refl
is_empty-keyed key (id ∷ ids) = refl

found-All :
    (p : ℕ → Bool) (ids : List ℕ)
    → exists (λ id. not (p id)) ids ≡ false
    → All (λ id. p id ≡ true) ids
unfolding exists
found-All p [] h = tt
found-All p (id ∷ ids) h = ground (arith, h, found-All p ids)

-- What the rows of the user say.
allowed_own :
    (user : User) (t : Site) (ids : List ℕ)
    → select (λ (r : ℕ × ℕ). r.0 == user.id) t.user_nodes ≡ keyed user.id ids
    → allowed_node_ids_for_user t user ≡ (
        if is_empty ids
        then allowed_node_ids_for_user (record t { user_nodes = [] }) user
        else some ids)
unfolding allowed_node_ids_for_user select
allowed_own user t [] h = rw h refl
allowed_own user t (id ∷ ids) h = rw h (ap some (ap (λ l. id ∷ l) (map-keyed user.id ids)))

-- A replacement of a user's nodes that succeeds has found every node, and from then on the user may use exactly the
-- positive ids of the request, each once; after a request without any, those of the user's group.
pub allowed_node_ids_for_user-replace_user_node_ids :
    (user : User) (node_ids : List ℕ) (s s' : Site)
    → replace_user_node_ids user.id node_ids s ≡ ok (tt, s')
    → All (λ id. has_node s id ≡ true) (normalize_node_ids node_ids)
      × (allowed_node_ids_for_user s' user ≡ (
          if is_empty (normalize_node_ids node_ids)
          then allowed_node_ids_for_user (record s { user_nodes = [] }) user
          else some (normalize_node_ids node_ids)))
unfolding replace_user_node_ids validate_node_ids
allowed_node_ids_for_user-replace_user_node_ids user node_ids s s' h =
    let ids = normalize_node_ids node_ids in
    let p : ℕ × ℕ → Bool = λ r. r.0 == user.id in
    let own : select p (delete p s.user_nodes ++ keyed user.id ids) ≡ keyed user.id ids =
      replaced p user.id ids s.user_nodes (λ id. (==_iff user.id user.id).1 refl) in
    elim (Bool-cases (exists (λ id. not (has_node s id)) ids)) [
      | inl e ↦ absurd (ground (arith, e, h))
      | inr e ↦
          let s1 = record s { user_nodes = delete p s.user_nodes ++ keyed user.id ids } in
          let same : s' ≡ s1 = ground (arith, e, h) in
          (
            found-All (has_node s) ids e,
            ap (λ t. allowed_node_ids_for_user t user) same ∙ allowed_own user s1 ids own,
          )
    ]

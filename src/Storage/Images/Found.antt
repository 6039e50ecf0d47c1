-- ===== src/Storage/Images/Found.antt =====
-- The two searches for an image on a node, which the source writes out twice.
use server_vps.Prelude.{
  ℕ, ◌≡◌, refl, ◌∙◌, inl, inr, Bool, false, ◌||◌, List, [], ◌∷◌, Text, strip, is_empty, arith,
  Bool-cases, ◌==◌, select, find, exists, order_by, exists-order_by,
}
use server_vps.Storage.Images.{
  IncusImage, is_some, row_has, row_matches, incus_image_ref_matches, image_before,
  is_remote_incus_ref, node_has_incus_image, find_node_incus_image,
}

is_some-find : {A : Type 0} (p : A → Bool) (xs : List A) → is_some (find p xs) ≡ exists p xs
unfolding is_some find exists
is_some-find p [] = refl
is_some-find p (x ∷ xs) = ground (arith, is_some-find p xs)

exists_same :
    {A : Type 0} (p q : A → Bool) (xs : List A) → ((x : A) → p x ≡ q x) → exists p xs ≡ exists q xs
unfolding exists
exists_same p q [] h = refl
exists_same p q (x ∷ xs) h = ground (arith, h x, exists_same p q xs h)

row_matches-row_has :
    (ref : Text) (row : IncusImage)
    → is_empty (strip ref) ≡ false
    → row_matches ref row ≡ row_has (strip ref) row
unfolding row_matches incus_image_ref_matches row_has
row_matches-row_has ref row h = rw h refl

-- A node counts as having an image exactly where the reference is blank or names a remote, or the search that the
-- storage routes use finds a row: the two loops, written apart, agree whatever the collation.
pub node_has_incus_image-find_node_incus_image :
    (less : Text → Text → Bool) (images : List IncusImage) (node_id : ℕ) (ref : Text)
    → node_has_incus_image images node_id ref ≡ (
        is_empty (strip ref)
        || is_remote_incus_ref (strip ref)
        || is_some (find_node_incus_image less images node_id ref))
unfolding node_has_incus_image find_node_incus_image
node_has_incus_image-find_node_incus_image less images node_id ref =
    let rows = select (λ row. row.node_id == node_id) images in
    let found =
      is_some-find (row_matches ref) (order_by (image_before less) rows)
      ∙ exists-order_by (image_before less) (row_matches ref) rows in
    elim (Bool-cases (is_empty (strip ref))) [
      | inl e ↦ ground (arith, e)
      | inr e ↦
          let same =
            exists_same (row_matches ref) (row_has (strip ref)) rows
              (λ row. row_matches-row_has ref row e) in
          ground (arith, e, found, same)
    ]

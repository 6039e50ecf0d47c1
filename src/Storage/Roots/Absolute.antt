-- ===== src/Storage/Roots/Absolute.antt =====
-- Storage roots and paths on them are absolute.
use mathlib.Core.Path.{subst}
use mathlib.Core.List.{reverse, reverse-append, reverse-reverse}
use server_vps.Prelude.{
  ℕ, ◌≤◌, ◌≡◌, refl, sym, ap, ◌∙◌, inl, inr, ◌⊎◌, true, false, List, [], ◌∷◌, ◌++◌, Text, codes,
  strip, is_empty, starts_with, drop, lstrip, is_space, lstrip_of, rstrip_of, length, arith,
  Bool-cases, ◌==◌, Option-cases, find, ok,
}
use server_vps.Storage.Roots.{
  StorageVolume, trim_root, is_root_of, storage_root_for_node, squeeze, or_else, root_of_node,
  storage_root_for_node_from_row, source_path_for_node,
}

abbrev pub IsAbsolute : Text → Type 0
IsAbsolute s = starts_with s (codes "/") ≡ true

lstrip_of-suffix : (x : ℕ) (s : Text) → (p : Text) × (s ≡ p ++ lstrip_of x s)
unfolding lstrip_of
lstrip_of-suffix x [] = ([], refl)
lstrip_of-suffix x (c ∷ s) = elim (Bool-cases (c == x)) [
  | inl e ↦ let (p, f) = lstrip_of-suffix x s in (c ∷ p, rw e (ap (λ t. c ∷ t) f))
  | inr e ↦ ([], rw e refl)
]

rstrip_of-prefix : (x : ℕ) (s : Text) → (t : Text) × (s ≡ rstrip_of x s ++ t)
unfolding rstrip_of
rstrip_of-prefix x s =
    let (p, e) = lstrip_of-suffix x (reverse s) in
    (
      reverse p,
      sym (reverse-reverse s) ∙ (ap reverse e ∙ reverse-append p (lstrip_of x (reverse s))),
    )

length-prefix : (s t : Text) → length s ≤ length (s ++ t)
length-prefix [] t = omega arith
length-prefix (c ∷ s) t = ground (arith, length-prefix s t)

prefix-IsAbsolute : (s t : Text) → is_empty s ≡ false → IsAbsolute (s ++ t) → IsAbsolute s
unfolding starts_with
prefix-IsAbsolute [] t h k = ground (arith, h)
prefix-IsAbsolute (c ∷ s) t h k = k

trim_root-IsAbsolute : (s : Text) → IsAbsolute s → IsAbsolute (trim_root s)
unfolding trim_root starts_with
trim_root-IsAbsolute s h =
    let (t, e) = rstrip_of-prefix b'/' s in
    elim (Bool-cases (is_empty (rstrip_of b'/' s))) [
      | inl blank ↦ rw blank refl
      | inr some_left ↦
          rw some_left (prefix-IsAbsolute (rstrip_of b'/' s) t some_left (subst IsAbsolute e h))
    ]

length-trim_root : (s : Text) → length s ≤ 240 → length (trim_root s) ≤ 240
unfolding trim_root
length-trim_root s h =
    let (t, e) = rstrip_of-prefix b'/' s in
    let shorter = length-prefix (rstrip_of b'/' s) t in
    let whole : length s ≡ length (rstrip_of b'/' s ++ t) = ap length e in
    elim (Bool-cases (is_empty (rstrip_of b'/' s))) [
      | inl blank ↦ rw blank (omega arith)
      | inr some_left ↦ rw some_left (omega arith)
    ]

squeeze-IsAbsolute : (s : Text) → IsAbsolute s → IsAbsolute (squeeze s)
unfolding squeeze starts_with
squeeze-IsAbsolute [] h = h
squeeze-IsAbsolute (c ∷ []) h = h
squeeze-IsAbsolute (c ∷ d ∷ s) h = ground (arith, h)

data-IsAbsolute : IsAbsolute (codes "/data")
unfolding starts_with
data-IsAbsolute = refl

-- A storage root that the service returns is absolute and at most 240 characters long.
pub storage_root_for_node-IsAbsolute :
    (volumes : List StorageVolume) (node_id : ℕ) (root : Text)
    → storage_root_for_node volumes node_id ≡ ok root
    → IsAbsolute root × (length root ≤ 240)
unfolding storage_root_for_node
storage_root_for_node-IsAbsolute volumes node_id root h =
    elim (Option-cases (find (is_root_of node_id) volumes)) [
      | inl e ↦
          let same : codes "/data" ≡ root = ground (arith, h, e) in
          rw (← same) (data-IsAbsolute, omega arith)
      | inr (row, e) ↦
          let path = strip row.path in
          let absolute = trim_root-IsAbsolute path in
          let short = length-trim_root path in ground (arith, h, e, absolute, short)
    ]

append-IsAbsolute : (s t : Text) → IsAbsolute s → IsAbsolute (s ++ t)
unfolding starts_with
append-IsAbsolute [] t h = absurd (ground (arith, h))
append-IsAbsolute (c ∷ s) t h = h

-- Whether a column holds an absolute path, or "".
abbrev pub IsRoot : Text → Type 0
IsRoot s = (s ≡ []) ⊎ IsAbsolute (strip s)

default_root : root_of_node [] ≡ codes "/data"
unfolding root_of_node or_else trim_root rstrip_of lstrip_of strip lstrip is_space starts_with
    storage_root_for_node_from_row
default_root = refl

or_else-IsAbsolute : (s : Text) → IsAbsolute s → IsAbsolute (or_else s (codes "/data"))
unfolding or_else
or_else-IsAbsolute s h = elim (Bool-cases (is_empty s)) [
  | inl e ↦ rw e data-IsAbsolute
  | inr e ↦ rw e h
]

own_root-IsAbsolute :
    (c : ℕ) (s : Text) → IsAbsolute (strip (c ∷ s)) → IsAbsolute (root_of_node (c ∷ s))
unfolding root_of_node or_else
own_root-IsAbsolute c s h =
    trim_root-IsAbsolute (or_else (strip (c ∷ s)) (codes "/data"))
      (or_else-IsAbsolute (strip (c ∷ s)) h)

root_of_node-IsAbsolute : (s : Text) → IsRoot s → IsAbsolute (root_of_node s)
unfolding root_of_node
root_of_node-IsAbsolute [] h = rw default_root data-IsAbsolute
root_of_node-IsAbsolute (c ∷ s) (inl e) = ground (arith, e)
root_of_node-IsAbsolute (c ∷ s) (inr h) = own_root-IsAbsolute c s h

-- Where the storage root of a node is absolute or "", the path on it that a platform path stands for is absolute.
pub source_path_for_node-IsAbsolute :
    (platform_path storage_root path : Text)
    → IsRoot storage_root
    → source_path_for_node platform_path storage_root ≡ ok path
    → IsAbsolute path
unfolding source_path_for_node
source_path_for_node-IsAbsolute platform_path storage_root path root h =
    let base = root_of_node storage_root in
    let absolute = root_of_node-IsAbsolute storage_root root in
    let moved = squeeze-IsAbsolute (base ++ codes "/" ++ drop 6 (strip platform_path)) (
      append-IsAbsolute (base ++ codes "/") (drop 6 (strip platform_path))
        (append-IsAbsolute base (codes "/") absolute)) in
    ground (arith, h, absolute, moved)

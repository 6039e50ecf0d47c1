-- ===== src/Prelude/Pairs.antt =====
-- Statements about every two rows of a table: what a UNIQUE constraint says.
use mathlib.Core.Bool.{Bool}
use mathlib.Core.List.{List, [], ◌∷◌, ◌++◌}
use native.Mathlib.Omega.{arith}
use server_vps.Prelude.Tests.{if◌then◌else◌}
use server_vps.Prelude.Table.{select, update}
use mathlib.Core.Path.{◌≡◌, sym, ◌∙◌}
use mathlib.Core.Logic.{◌⊎◌, inl, inr}
use server_vps.Prelude.Predicates.{All, All-select, IsIn, All-IsIn}

module _ {A : Type 0} where
  abbrev pub Pairwise : (A → A → Type 0) → List A → Type 0
  Pairwise R [] = Unit
  Pairwise R (x ∷ xs) = All (R x) xs × Pairwise R xs

module _ {A : Type 0} (R : A → A → Type 0) where
  All-concat_one : (P : A → Type 0) (xs : List A) (y : A) → All P xs → P y → All P (xs ++ y ∷ [])
  All-concat_one P [] y h k = (k, tt)
  All-concat_one P (x ∷ xs) y h k = (h.0, All-concat_one P xs y h.1 k)

  -- INSERT of a row that is apart from all others
  pub Pairwise-insert :
      (xs : List A) (y : A) → Pairwise R xs → All (λ x. R x y) xs → Pairwise R (xs ++ y ∷ [])
  Pairwise-insert [] y h k = (tt, tt)
  Pairwise-insert (x ∷ xs) y h k = (All-concat_one (R x) xs y h.0 k.0, Pairwise-insert xs y h.1 k.1)

  pub Pairwise-select : (p : A → Bool) (xs : List A) → Pairwise R xs → Pairwise R (select p xs)
  unfolding select
  Pairwise-select p [] h = tt
  Pairwise-select p (x ∷ xs) h = ground (arith, All-select (R x) p xs h.0, Pairwise-select p xs h.1)

-- UPDATE keeps the rows apart if it keeps any two rows apart that have what `Q` says of each row.
module _ {A : Type 0} (R : A → A → Type 0) (Q : A → Type 0) (p : A → Bool) (f : A → A) where
  abbrev pub changed : A → A
  changed x = if p x then f x else x

  All-changed :
      (x : A) (xs : List A)
      → ((a b : A) → Q a → Q b → R a b → R (changed a) (changed b))
      → Q x
      → All Q xs
      → All (R x) xs
      → All (R (changed x)) (update p f xs)
  unfolding update
  All-changed x [] keep q qs h = tt
  All-changed x (y ∷ ys) keep q qs h = (keep x y q qs.0 h.0, All-changed x ys keep q qs.1 h.1)

  pub Pairwise-update :
      (xs : List A)
      → ((a b : A) → Q a → Q b → R a b → R (changed a) (changed b))
      → All Q xs
      → Pairwise R xs
      → Pairwise R (update p f xs)
  unfolding update
  Pairwise-update [] keep qs h = tt
  Pairwise-update (x ∷ xs) keep qs h =
      (All-changed x xs keep qs.0 qs.1 h.0, Pairwise-update xs keep qs.1 h.1)

module _ {A : Type 0} (R : A → A → Type 0) where
  -- Any two rows are the same one or apart, one way round.
  pub Pairwise-IsIn :
      (xs : List A) (a b : A) → Pairwise R xs → IsIn a xs → IsIn b xs → (a ≡ b) ⊎ (R a b ⊎ R b a)
  Pairwise-IsIn [] a b h i j = absurd i
  Pairwise-IsIn (x ∷ xs) a b h (inl i) (inl j) = inl (i ∙ sym j)
  Pairwise-IsIn (x ∷ xs) a b h (inl i) (inr j) = inr (inl (rw i (All-IsIn (R x) xs b h.0 j)))
  Pairwise-IsIn (x ∷ xs) a b h (inr i) (inl j) = inr (inr (rw j (All-IsIn (R x) xs a h.0 i)))
  Pairwise-IsIn (x ∷ xs) a b h (inr i) (inr j) = Pairwise-IsIn xs a b h.1 i j

-- ===== src/Prelude/Predicates.antt =====
-- Statements about the rows of a table.
use Prim.Native.Nat.{◌≤◌}
use mathlib.Core.Path.{◌≡◌, refl}
use mathlib.Core.Logic.{◌⊎◌, inl, inr}
use mathlib.Core.Bool.{Bool, true, false, not, ◌||◌}
use mathlib.Core.Option.{none, some}
use mathlib.Core.List.{List, [], ◌∷◌, ◌++◌}
use native.Mathlib.Omega.{arith}
use server_vps.Prelude.Tests.{Bool-cases}
use server_vps.Prelude.Table.{length, select, find, exists, update, delete}

module _ {ℓ κ} {A : Type ℓ} where
  abbrev pub All : (A → Type κ) → List A → Type κ
  All P [] = Unit
  All P (x ∷ xs) = P x × All P xs

module _ {A : Type 0} where
  abbrev pub IsIn : A → List A → Type 0
  IsIn a [] = ⊥
  IsIn a (x ∷ xs) = (a ≡ x) ⊎ IsIn a xs

module _ {A : Type 0} where
  pub find_sound :
      (p : A → Bool) (xs : List A) (a : A) → find p xs ≡ some a → (p a ≡ true) × IsIn a xs
  unfolding find
  find_sound p [] a h = ground arith
  find_sound p (x ∷ xs) a h = ground (arith, find_sound p xs a)

  pub find-none : (p : A → Bool) (xs : List A) → find p xs ≡ none → All (λ x. p x ≡ false) xs
  unfolding find
  find-none p [] h = tt
  find-none p (x ∷ xs) h = ground (arith, find-none p xs)

  pub exists-append :
      (p : A → Bool) (xs ys : List A) → exists p (xs ++ ys) ≡ (exists p xs || exists p ys)
  unfolding exists
  exists-append p [] ys = refl
  exists-append p (x ∷ xs) ys = ground (arith, exists-append p xs ys)

  pub exists-false : (p : A → Bool) (xs : List A) → exists p xs ≡ false → All (λ x. p x ≡ false) xs
  unfolding exists
  exists-false p [] h = tt
  exists-false p (x ∷ xs) h = ground (arith, exists-false p xs)

  pub exists_of_IsIn :
      (p : A → Bool) (xs : List A) (a : A) → IsIn a xs → p a ≡ true → exists p xs ≡ true
  unfolding exists
  exists_of_IsIn p [] a h k = absurd h
  exists_of_IsIn p (x ∷ xs) a h k = ground (arith, exists_of_IsIn p xs a)

  pub exists-delete : (p : A → Bool) (xs : List A) → exists p (delete p xs) ≡ false
  unfolding exists delete
  exists-delete p [] = refl
  exists-delete p (x ∷ xs) = ground (arith, exists-delete p xs)

  pub IsIn-select :
      (p : A → Bool) (xs : List A) (a : A) → IsIn a (select p xs) → (p a ≡ true) × IsIn a xs
  unfolding select
  IsIn-select p [] a h = absurd h
  IsIn-select p (x ∷ xs) a h = ground (arith, IsIn-select p xs a)

  pub IsIn-delete :
      (p : A → Bool) (xs : List A) (a : A) → IsIn a (delete p xs) → (p a ≡ false) × IsIn a xs
  unfolding delete
  IsIn-delete p xs a h = ground (arith, IsIn-select (λ x. not (p x)) xs a h)

  pub length-select : (p : A → Bool) (xs : List A) → length (select p xs) ≤ length xs
  unfolding select
  length-select p [] = omega arith
  length-select p (x ∷ xs) = ground (arith, length-select p xs)

  pub length-update : (p : A → Bool) (f : A → A) (xs : List A) → length (update p f xs) ≡ length xs
  unfolding update
  length-update p f [] = refl
  length-update p f (x ∷ xs) = ground (arith, length-update p f xs)

module _ {A : Type 0} (P : A → Type 0) where
  pub All-append : (xs ys : List A) → All P xs → All P ys → All P (xs ++ ys)
  All-append [] ys h k = k
  All-append (x ∷ xs) ys h k = (h.0, All-append xs ys h.1 k)

  pub All-IsIn : (xs : List A) (a : A) → All P xs → IsIn a xs → P a
  All-IsIn [] a h i = absurd i
  All-IsIn (x ∷ xs) a h (inl e) = rw e h.0
  All-IsIn (x ∷ xs) a h (inr i) = All-IsIn xs a h.1 i

  pub All-of_IsIn : (xs : List A) → ((a : A) → IsIn a xs → P a) → All P xs
  All-of_IsIn [] h = tt
  All-of_IsIn (x ∷ xs) h = (h x (inl refl), All-of_IsIn xs (λ a i. h a (inr i)))

  pub All-select : (p : A → Bool) (xs : List A) → All P xs → All P (select p xs)
  unfolding select
  All-select p [] h = tt
  All-select p (x ∷ xs) h = ground (arith, All-select p xs)

  pub All-update :
      (p : A → Bool) (f : A → A) (xs : List A)
      → ((a : A) → P a → p a ≡ true → P (f a))
      → All P xs
      → All P (update p f xs)
  unfolding update
  All-update p f [] keep h = tt
  All-update p f (x ∷ xs) keep h = ground (arith, keep x h.0, All-update p f xs keep)

module _ {A : Type 0} where
  pub select-IsIn :
      (p : A → Bool) (xs : List A) (a : A) → IsIn a xs → p a ≡ true → IsIn a (select p xs)
  unfolding select
  select-IsIn p [] a i h = absurd i
  select-IsIn p (x ∷ xs) a (inl e) h = rw (← e) (rw h (inl refl))
  select-IsIn p (x ∷ xs) a (inr i) h = ground (arith, select-IsIn p xs a i h)

  pub IsIn-of_exists :
      (p : A → Bool) (xs : List A) → exists p xs ≡ true → (a : A) × IsIn a xs × (p a ≡ true)
  unfolding exists
  IsIn-of_exists p [] h = absurd (ground (arith, h))
  IsIn-of_exists p (x ∷ xs) h = elim (Bool-cases (p x)) [
    | inl e ↦ (x, inl refl, e)
    | inr e ↦ let (a, i, k) = IsIn-of_exists p xs (ground (arith, e, h)) in (a, inr i, k)
  ]

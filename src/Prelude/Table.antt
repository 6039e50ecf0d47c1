-- ===== src/Prelude/Table.antt =====
-- SQL tables as lists of rows, in the order of their serial ids, and the statements that the
-- backend runs on them: SELECT ... WHERE, fetchone, COUNT, UPDATE ... WHERE, DELETE ... WHERE.
use Prim.Native.Nat.{ℕ, suc}
use mathlib.Core.Bool.{Bool, false, not, ◌||◌}
use mathlib.Core.Option.{Option, none, some}
use mathlib.Core.List.{List, [], ◌∷◌}
use server_vps.Prelude.Tests.{if◌then◌else◌}

module _ {ℓ} {A : Type ℓ} where
  abbrev pub length : List A → ℕ
  length [] = 0
  length (x ∷ xs) = suc (length xs)

  abbrev pub take : ℕ → List A → List A
  take ℕ.zero xs = []
  take (suc n) [] = []
  take (suc n) (x ∷ xs) = x ∷ take n xs

  -- SELECT * FROM t WHERE p
  unfoldable pub select : (A → Bool) → List A → List A
  select p [] = []
  select p (x ∷ xs) = let rest = select p xs in if p x then x ∷ rest else rest

  -- the same, with fetchone()
  unfoldable pub find : (A → Bool) → List A → Option A
  find p [] = none
  find p (x ∷ xs) = if p x then some x else find p xs

  -- whether fetchone() of SELECT 1 FROM t WHERE p returns a row
  unfoldable pub exists : (A → Bool) → List A → Bool
  exists p [] = false
  exists p (x ∷ xs) = p x || exists p xs

  -- UPDATE t SET f WHERE p
  unfoldable pub update : (A → Bool) → (A → A) → List A → List A
  update p f [] = []
  update p f (x ∷ xs) = (if p x then f x else x) ∷ update p f xs

  -- DELETE FROM t WHERE p
  unfoldable pub delete : (A → Bool) → List A → List A
  unfolding select
  delete p xs = select (λ x. not (p x)) xs

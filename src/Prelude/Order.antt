-- ===== src/Prelude/Order.antt =====
-- ORDER BY: a stable insertion sort by a Boolean comparison, `before a b` where a sorts before b or
-- ties with it.
use mathlib.Core.Path.{◌≡◌, refl}
use mathlib.Core.Logic.{◌⊎◌}
use mathlib.Core.Bool.{Bool, ◌||◌}
use mathlib.Core.List.{List, [], ◌∷◌}
use native.Mathlib.Omega.{arith}
use server_vps.Prelude.Tests.{if◌then◌else◌}
use server_vps.Prelude.Table.{exists}
use server_vps.Prelude.Predicates.{IsIn}

module _ {ℓ} {A : Type ℓ} (before : A → A → Bool) where
  unfoldable pub insert_by : A → List A → List A
  insert_by x [] = x ∷ []
  insert_by x (y ∷ ys) = if before x y then x ∷ y ∷ ys else y ∷ insert_by x ys

  unfoldable pub order_by : List A → List A
  unfolding insert_by
  order_by [] = []
  order_by (x ∷ xs) = insert_by x (order_by xs)

module _ {A : Type 0} (before : A → A → Bool) where
  exists-insert_by :
      (p : A → Bool) (x : A) (xs : List A) → exists p (insert_by before x xs) ≡ (p x || exists p xs)
  unfolding exists insert_by
  exists-insert_by p x [] = refl
  exists-insert_by p x (y ∷ ys) = ground (arith, exists-insert_by p x ys)

  pub exists-order_by : (p : A → Bool) (xs : List A) → exists p (order_by before xs) ≡ exists p xs
  unfolding exists order_by
  exists-order_by p [] = refl
  exists-order_by p (x ∷ xs) =
      ground (arith, exists-insert_by p x (order_by before xs), exists-order_by p xs)

  IsIn-insert_by : (a x : A) (xs : List A) → IsIn a (insert_by before x xs) → (a ≡ x) ⊎ IsIn a xs
  unfolding insert_by
  IsIn-insert_by a x [] h = h
  IsIn-insert_by a x (y ∷ ys) h = ground (arith, IsIn-insert_by a x ys)

  -- Sorting adds no row.
  pub IsIn-order_by : (a : A) (xs : List A) → IsIn a (order_by before xs) → IsIn a xs
  unfolding order_by
  IsIn-order_by a [] h = h
  IsIn-order_by a (x ∷ xs) h =
      ground (arith, IsIn-insert_by a x (order_by before xs), IsIn-order_by a xs)

  insert_by-IsIn : (a x : A) (xs : List A) → (a ≡ x) ⊎ IsIn a xs → IsIn a (insert_by before x xs)
  unfolding insert_by
  insert_by-IsIn a x [] h = h
  insert_by-IsIn a x (y ∷ ys) h = ground (arith, h, insert_by-IsIn a x ys)

  -- Nor does it lose one.
  pub order_by-IsIn : (a : A) (xs : List A) → IsIn a xs → IsIn a (order_by before xs)
  unfolding order_by
  order_by-IsIn a [] h = h
  order_by-IsIn a (x ∷ xs) h =
      insert_by-IsIn a x (order_by before xs) (ground (arith, h, order_by-IsIn a xs))

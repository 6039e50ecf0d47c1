-- ===== src/Prelude/Dicts.antt =====
-- Python's dicts as association lists in insertion order, under a Boolean test on keys.
use mathlib.Core.Path.{◌≡◌, refl}
use mathlib.Core.Logic.{◌↔◌, inl, inr}
use mathlib.Core.Bool.{Bool, true}
use mathlib.Core.Option.{Option, none, some}
use mathlib.Core.List.{List, [], ◌∷◌}
use native.Mathlib.Omega.{arith}
use server_vps.Prelude.Tests.{if◌then◌else◌, Bool-cases}
use server_vps.Prelude.Table.{select}

abbrev pub Dict : Type 0 → Type 0 → Type 0
Dict K V = List (K × V)

module _ {K V : Type 0} (same : K → K → Bool) where
  -- d.get(k)
  unfoldable pub lookup : K → Dict K V → Option V
  lookup k [] = none
  lookup k ((j, w) ∷ d) = if same k j then some w else lookup k d

  -- d[k] = v, which keeps the place of a key that is there
  unfoldable pub insert : K → V → Dict K V → Dict K V
  insert k v [] = (k, v) ∷ []
  insert k v ((j, w) ∷ d) = if same k j then (j, v) ∷ d else (j, w) ∷ insert k v d

  -- No key stands twice.
  abbrev pub NodupKeys : Dict K V → Type 0
  NodupKeys [] = Unit
  NodupKeys ((k, w) ∷ d) = (lookup k d ≡ none) × NodupKeys d

module _ {K V : Type 0} (same : K → K → Bool)
    (same_iff : (j k : K) → (same j k ≡ true) ↔ (j ≡ k)) where
  pub lookup-insert :
      (j k : K) (v : V) (d : Dict K V)
      → lookup same j (insert same k v d) ≡ (if same j k then some v else lookup same j d)
  unfolding insert lookup
  lookup-insert j k v [] = refl
  lookup-insert j k v ((i, w) ∷ d) =
      ground (arith, lookup-insert j k v d, same_iff j k, same_iff k i, same_iff j i)

  pub insert-NodupKeys :
      (k : K) (v : V) (d : Dict K V) → NodupKeys same d → NodupKeys same (insert same k v d)
  unfolding insert lookup
  insert-NodupKeys k v [] h = (refl, tt)
  insert-NodupKeys k v ((i, w) ∷ d) h = ground (
    arith,
    insert-NodupKeys k v d h.1,
    lookup-insert i k v d,
    h.0,
    h.1,
    same_iff k i,
    same_iff i k,
  )

  pub lookup-select :
      (p : K × V → Bool) (k : K) (d : Dict K V)
      → NodupKeys same d
      → lookup same k (select p d)
        ≡ elim (lookup same k d) [ none ↦ none | some v ↦ if p (k, v) then some v else none ]
  unfolding select lookup
  lookup-select p k [] h = refl
  lookup-select p k ((j, w) ∷ d) h = elim (Bool-cases (same k j)) [
    | inl e ↦
        let at : k ≡ j = (same_iff k j).0 e in
        rw at (ground (arith, same_iff j j, lookup-select p j d h.1, h.0))
    | inr e ↦ ground (arith, e, lookup-select p k d h.1)
  ]

  pub select-NodupKeys :
      (p : K × V → Bool) (d : Dict K V) → NodupKeys same d → NodupKeys same (select p d)
  unfolding select
  select-NodupKeys p [] h = tt
  select-NodupKeys p ((j, w) ∷ d) h =
      ground (arith, select-NodupKeys p d h.1, lookup-select p j d h.1, h.0)

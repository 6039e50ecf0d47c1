-- ===== src/Prelude/Splits.antt =====
-- `split`, `join`, `rstrip` and `upper` on texts.
use Prim.Native.Nat.{ℕ, ◌-◌}
use mathlib.Core.Path.{◌≡◌, refl}
use mathlib.Core.Bool.{false, ◌&&◌}
use mathlib.Core.List.{List, [], ◌∷◌, ◌++◌, map, reverse}
use native.Mathlib.Omega.{arith}
use server_vps.Prelude.Tests.{leb, ◌==◌, if◌then◌else◌}
use server_vps.Prelude.Predicates.{All}
use server_vps.Prelude.Strings.{Text}

-- The first part with one more character.
abbrev grow : ℕ → List Text → List Text
grow c [] = (c ∷ []) ∷ []
grow c (s ∷ ss) = (c ∷ s) ∷ ss

-- s.split(sep)
unfoldable pub split : ℕ → Text → List Text
split sep [] = [] ∷ []
split sep (c ∷ s) = let rest = split sep s in if c == sep then [] ∷ rest else grow c rest

-- sep.join(parts)
unfoldable pub join : ℕ → List Text → Text
join sep [] = []
join sep (s ∷ []) = s
join sep (s ∷ t ∷ ss) = s ++ sep ∷ join sep (t ∷ ss)

-- s.rstrip(chr)
unfoldable pub lstrip_of : ℕ → Text → Text
lstrip_of x [] = []
lstrip_of x (c ∷ s) = let rest = lstrip_of x s in if c == x then rest else c ∷ s

unfoldable pub rstrip_of : ℕ → Text → Text
rstrip_of x s = reverse (lstrip_of x (reverse s))

-- s.upper(), on the letters a-z
unfoldable pub upper : Text → Text
upper s = map (λ c. if leb b'a' c && leb c b'z' then c - 32 else c) s

abbrev pub Without : ℕ → Text → Type 0
Without sep = All (λ c. (c == sep) ≡ false)

split-append : (sep : ℕ) (s t : Text) → Without sep s → split sep (s ++ sep ∷ t) ≡ s ∷ split sep t
unfolding split
split-append sep [] t h = ground arith
split-append sep (c ∷ s) t h = ground (arith, h.0, split-append sep s t h.1)

split_one : (sep : ℕ) (s : Text) → Without sep s → split sep s ≡ s ∷ []
unfolding split
split_one sep [] h = refl
split_one sep (c ∷ s) h = ground (arith, h.0, split_one sep s h.1)

-- Parts without the separator come apart again.
pub split-join :
    (sep : ℕ) (s : Text) (ss : List Text)
    → All (Without sep) (s ∷ ss)
    → split sep (join sep (s ∷ ss)) ≡ s ∷ ss
unfolding join
split-join sep s [] h = split_one sep s h.0
split-join sep s (t ∷ ss) h =
    ground (arith, split-append sep s (join sep (t ∷ ss)) h.0, split-join sep t ss h.1)

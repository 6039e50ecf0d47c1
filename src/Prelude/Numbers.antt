-- ===== src/Prelude/Numbers.antt =====
-- `str(n)` and `int(s)` of Python, on decimal digits of ASCII.
use Prim.Native.Nat.{ℕ, zero, suc, ◌+◌, ◌-◌, ◌*◌, ◌/◌, ◌%◌, ◌≤◌, ◌<◌, max}
use mathlib.Core.Path.{◌≡◌, refl}
use mathlib.Core.Bool.{Bool, true, false, ◌&&◌}
use mathlib.Core.Option.{Option, none, some}
use mathlib.Core.List.{[], ◌∷◌}
use native.Mathlib.Omega.{arith}
use server_vps.Prelude.Tests.{ltb, leb, ◌==◌, if◌then◌else◌}
use server_vps.Prelude.Predicates.{All}
use server_vps.Prelude.Strings.{Text, is_space, strip}
use server_vps.Prelude.Stripped.{strip_id}

-- An integer: n, or -(n + 1).
pub data ℤ : Type 0 where
  pos negsuc : ℕ → ℤ

-- max(k, i)
unfoldable pub at_least : ℕ → ℤ → ℕ
at_least k (pos n) = max k n
at_least k (negsuc n) = k

-- The digits of n before `out`; the fuel is more than n.
unfoldable pub digits : ℕ → ℕ → Text → Text
digits zero n out = out
digits (suc fuel) n out =
    let more = digits fuel (n / 10) ((48 + n % 10) ∷ out) in
    if ltb n 10 then (48 + n) ∷ out else more

-- str(n)
unfoldable pub print : ℕ → Text
unfolding digits
print n = digits (suc n) n []

unfoldable pub is_digit : ℕ → Bool
is_digit c = leb 48 c && leb c 57

-- Digits, with single underscores between them: `seen` tells whether a digit comes just before.
unfoldable pub scan : Bool → ℕ → Text → Option ℕ
scan seen n [] = if seen then some n else none
scan seen n (c ∷ s) =
    let digit = scan true (n * 10 + (c - 48)) s in
    let underscore = scan false n s in
    if is_digit c then digit else if c == 95 && seen then underscore else none

unfoldable pub negated : ℕ → ℤ
negated zero = pos zero
negated (suc n) = negsuc n

unfoldable pub signed : Text → Option ℤ
signed [] = none
signed (c ∷ s) =
    if c == 45
    then elim (scan false 0 s) [ none ↦ none | some n ↦ some (negated n) ]
    else elim (scan false 0 (if c == 43 then s else c ∷ s)) [ none ↦ none | some n ↦ some (pos n) ]

-- int(s), or `none` for the ValueError.
unfoldable pub parse_int : Text → Option ℤ
parse_int s = signed (strip s)

scan-digits :
    (fuel n : ℕ) (seen : Bool) (out : Text)
    → n < fuel
    → scan seen 0 (digits fuel n out) ≡ scan true n out
unfolding scan digits is_digit
scan-digits zero n seen out h = absurd (omega (arith, h))
scan-digits (suc fuel) n seen out h =
    ground (arith, scan-digits fuel (n / 10) seen ((48 + n % 10) ∷ out))

abbrev pub IsDigit : ℕ → Type 0
IsDigit c = (48 ≤ c) × (c ≤ 57)

digits-IsDigit : (fuel n : ℕ) (out : Text) → All IsDigit out → All IsDigit (digits fuel n out)
unfolding digits
digits-IsDigit zero n out h = h
digits-IsDigit (suc fuel) n out h =
    ground (arith, h, digits-IsDigit fuel (n / 10) ((48 + n % 10) ∷ out))

pub print-IsDigit : (n : ℕ) → All IsDigit (print n)
unfolding print
print-IsDigit n = digits-IsDigit (suc n) n [] tt

digit-space : (s : Text) → All IsDigit s → All (λ c. is_space c ≡ false) s
unfolding is_space
digit-space [] h = tt
digit-space (c ∷ s) h = (ground (arith, h.0), digit-space s h.1)

signed-digits :
    (s : Text) → All IsDigit s → (n : ℕ) → scan false 0 s ≡ some n → signed s ≡ some (pos n)
unfolding signed scan
signed-digits [] h n e = absurd (ground (arith, e))
signed-digits (c ∷ s) h n e = ground (arith, h.0, e)

-- A printed number is read back.
pub parse_int-print : (n : ℕ) → parse_int (print n) ≡ some (pos n)
unfolding parse_int print scan
parse_int-print n =
    rw (strip_id (print n) (digit-space (print n) (print-IsDigit n)))
      (signed-digits (print n) (print-IsDigit n) n (scan-digits (suc n) n false [] (omega arith)))

unfoldable pub print_int : ℤ → Text
print_int (pos n) = print n
print_int (negsuc n) = 45 ∷ print (suc n)

minus : (n : ℕ) → parse_int (45 ∷ print (suc n)) ≡ some (negsuc n)
unfolding parse_int signed negated print scan is_space
minus n =
    rw (strip_id (45 ∷ print (suc n)) (refl, digit-space (print (suc n)) (print-IsDigit (suc n))))
      (ground (arith, scan-digits (suc (suc n)) (suc n) false [] (omega arith)))

-- Nor is the sign lost.
pub parse_int-print_int : (i : ℤ) → parse_int (print_int i) ≡ some i
unfolding print_int
parse_int-print_int (pos n) = parse_int-print n
parse_int-print_int (negsuc n) = minus n

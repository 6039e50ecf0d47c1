-- ===== src/Settings/Fields.antt =====
-- Single settings, written and read back.
use Prim.Native.Nat.{max, zero, suc, ◌+◌, ◌/◌, ◌%◌}
use server_vps.Prelude.{
  ℕ, ◌≤◌, String, ◌≡◌, refl, inl, inr, ap, ◌∙◌, sym, Bool, true, false, not, ◌&&◌, ◌||◌, Option,
  none, some, List, [], ◌∷◌, ◌++◌, Text, codes, arith, strip, split, join, strip-idempotent,
  is_empty, if◌then◌else◌, exists, exists-append, select, ◌==◌, ==_iff, text_eq, Bool-cases, pos,
  negsuc, ℤ, at_least, print, print_int, parse_int, digits, parse_int-print, parse_int-print_int,
  print-IsDigit, split-join, Without, All, IsDigit, Result, ok,
}
use server_vps.Settings.{bool_to_setting, setting_to_bool, or_text, one_of}
use server_vps.Settings.Read.{int_setting, cas_version}

pub setting_to_bool-bool_to_setting : (b : Bool) → setting_to_bool (bool_to_setting b) ≡ b
unfolding setting_to_bool bool_to_setting server_vps.Prelude.text_eq server_vps.Prelude.lower strip
setting_to_bool-bool_to_setting true = refl
setting_to_bool-bool_to_setting false = refl

pub or_text-idempotent :
    (value : Text) (default : String)
    → or_text (or_text value default) default ≡ or_text value default
unfolding or_text
or_text-idempotent [] default = elim (Bool-cases (is_empty (codes default))) [
  | inl e ↦ rw e refl
  | inr e ↦ rw e refl
]
or_text-idempotent (c ∷ value) default = refl

-- The default of a stripped text is stripped too.
or_text-stripped :
    (value : Text)
    → strip value ≡ value
    → or_text (strip (or_text value ".server-vps-nfs")) ".server-vps-nfs"
      ≡ or_text value ".server-vps-nfs"
unfolding or_text strip
or_text-stripped [] e = refl
or_text-stripped (c ∷ value) e = ap (λ t. or_text t ".server-vps-nfs") e

pub or_text-strip :
    (value : Text)
    → or_text (strip (or_text (strip value) ".server-vps-nfs")) ".server-vps-nfs"
      ≡ or_text (strip value) ".server-vps-nfs"
or_text-strip value = or_text-stripped (strip value) (strip-idempotent value)

one_of_default :
    (names : List String) (default : String) → one_of names (codes default) default ≡ codes default
unfolding one_of
one_of_default names default =
    elim (Bool-cases (exists (λ name. text_eq (codes default) (codes name)) names)) [
      | inl e ↦ rw e refl
      | inr e ↦ rw e refl
    ]

pub one_of-idempotent :
    (names : List String) (value : Text) (default : String)
    → one_of names (one_of names value default) default ≡ one_of names value default
unfolding one_of
one_of-idempotent names value default =
    elim (Bool-cases (exists (λ name. text_eq value (codes name)) names)) [
      | inl e ↦
          let same : one_of names value default ≡ value = rw e refl in
          ap (λ v. one_of names v default) same
      | inr e ↦
          let other : one_of names value default ≡ codes default = rw e refl in
          ap (λ v. one_of names v default) other ∙ (one_of_default names default ∙ sym other)
    ]

pub max_of : (low n : ℕ) → low ≤ n → max low n ≡ n
max_of low n h = omega (arith, h)

digits_more : (fuel n c : ℕ) (out : Text) → is_empty (digits fuel n (c ∷ out)) ≡ false
unfolding digits
digits_more zero n c out = refl
digits_more (suc fuel) n c out = ground (arith, digits_more fuel (n / 10) (48 + n % 10) (c ∷ out))

print-or_text : (n : ℕ) (default : String) → or_text (print n) default ≡ print n
unfolding or_text print digits
print-or_text n default = ground (arith, digits_more n (n / 10) (48 + n % 10) [])

print_int-or_text : (i : ℤ) (default : String) → or_text (print_int i) default ≡ print_int i
unfolding or_text print_int
print_int-or_text (pos n) default = print-or_text n default
print_int-or_text (negsuc n) default = refl

pub int_setting-print :
    (raw : String → Text) (low : ℕ) (key default : String) (n : ℕ)
    → raw key ≡ print n
    → low ≤ n
    → int_setting raw low key default ≡ ok n
unfolding int_setting at_least
int_setting-print raw low key default n e h =
    let read : parse_int (or_text (raw key) default) ≡ some (pos n) =
      ap (λ t. parse_int (or_text t default)) e
      ∙ (ap parse_int (print-or_text n default) ∙ parse_int-print n) in
    ground (arith, read, max_of low n h)

pub cas_version-print_int :
    (raw : String → Text) (i : ℤ) → raw "sso_cas_version" ≡ print_int i → cas_version raw ≡ ok i
unfolding cas_version
cas_version-print_int raw i e =
    let read : parse_int (or_text (raw "sso_cas_version") "3") ≡ some i =
      ap (λ t. parse_int (or_text t "3")) e
      ∙ (ap parse_int (print_int-or_text i "3") ∙ parse_int-print_int i) in
    ground (arith, read)

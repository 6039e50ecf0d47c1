-- ===== src/Prelude/Stripped.antt =====
-- Laws of `strip`.
use Prim.Native.Nat.{ℕ}
use mathlib.Core.Path.{◌≡◌, refl, sym, ap, ◌∙◌, subst}
use mathlib.Core.Logic.{inl, inr}
use mathlib.Core.Bool.{false}
use mathlib.Core.List.{[], ◌∷◌, ◌++◌, reverse, reverse-append, reverse-reverse, reverse-cons}
use server_vps.Prelude.Tests.{Bool-cases}
use server_vps.Prelude.Predicates.{All, All-append}
use server_vps.Prelude.Strings.{Text, is_space, lstrip, strip}

-- A text that does not start with white space.
abbrev StartsDark : Text → Type 0
StartsDark [] = Unit
StartsDark (c ∷ s) = is_space c ≡ false

lstrip-StartsDark : (s : Text) → StartsDark (lstrip s)
unfolding lstrip
lstrip-StartsDark [] = tt
lstrip-StartsDark (c ∷ s) = elim (Bool-cases (is_space c)) [
  | inl e ↦ rw e (lstrip-StartsDark s)
  | inr e ↦ rw e e
]

lstrip_id : (s : Text) → StartsDark s → lstrip s ≡ s
unfolding lstrip
lstrip_id [] h = refl
lstrip_id (c ∷ s) h = rw h refl

-- What is left is an end of the text.
lstrip-suffix : (s : Text) → (p : Text) × (s ≡ p ++ lstrip s)
unfolding lstrip
lstrip-suffix [] = ([], refl)
lstrip-suffix (c ∷ s) = elim (Bool-cases (is_space c)) [
  | inl e ↦ let (p, f) = lstrip-suffix s in (c ∷ p, rw e (ap (λ t. c ∷ t) f))
  | inr e ↦ ([], rw e refl)
]

StartsDark-prefix : (s t : Text) → StartsDark (s ++ t) → StartsDark s
StartsDark-prefix [] t h = tt
StartsDark-prefix (c ∷ s) t h = h

strip-StartsDark : (s : Text) → StartsDark (strip s)
unfolding strip
strip-StartsDark s =
    let t = lstrip s in
    let (p, e) = lstrip-suffix (reverse t) in
    let whole : t ≡ reverse (lstrip (reverse t)) ++ reverse p =
      sym (reverse-reverse t) ∙ (ap reverse e ∙ reverse-append p (lstrip (reverse t))) in
    let dark : StartsDark t = lstrip-StartsDark s in
    StartsDark-prefix (reverse (lstrip (reverse t))) (reverse p) (subst StartsDark whole dark)

pub strip-idempotent : (s : Text) → strip (strip s) ≡ strip s
unfolding strip
strip-idempotent s =
    let u = lstrip (reverse (lstrip s)) in
    let once : lstrip (reverse u) ≡ reverse u = lstrip_id (reverse u) (strip-StartsDark s) in
    let back : lstrip (reverse (reverse u)) ≡ u =
      ap lstrip (reverse-reverse u) ∙ lstrip_id u (lstrip-StartsDark (reverse (lstrip s))) in
    ap (λ x. reverse (lstrip (reverse x))) once ∙ ap reverse back

All-reverse : (P : ℕ → Type 0) (s : Text) → All P s → All P (reverse s)
All-reverse P [] h = tt
All-reverse P (c ∷ s) h =
    subst (All P) (sym (reverse-cons c s))
      (All-append P (reverse s) (c ∷ []) (All-reverse P s h.1) (h.0, tt))

dark : (s : Text) → All (λ c. is_space c ≡ false) s → StartsDark s
dark [] h = tt
dark (c ∷ s) h = h.0

-- A text without white space is stripped.
pub strip_id : (s : Text) → All (λ c. is_space c ≡ false) s → strip s ≡ s
unfolding strip
strip_id s h = rw (lstrip_id s (dark s h)) (
    rw (lstrip_id (reverse s) (dark (reverse s) (All-reverse (λ c. is_space c ≡ false) s h)))
      (reverse-reverse s))

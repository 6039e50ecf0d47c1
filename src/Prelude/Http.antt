-- ===== src/Prelude/Http.antt =====
-- `HTTPException` as a result: an error carries the status code; the message is not modelled.
use Prim.Native.Nat.{ℕ}
use mathlib.Core.Path.{◌≡◌, refl}
use mathlib.Core.Logic.{◌⊎◌, inl, inr}
use mathlib.Core.Bool.{Bool, true, false}
use mathlib.Core.Option.{Option, none, some}

pub data Result {ℓ} (A : Type ℓ) : Type ℓ where
  ok : A → Result A
  http_error : ℕ → Result A

infixl 5 ◌>>=◌ ◌>>◌
abbrev pub ◌>>=◌ {ℓ κ} : {A : Type ℓ} {B : Type κ} → Result A → (A → Result B) → Result B
ok a >>= f = f a
http_error e >>= f = http_error e

abbrev pub ◌>>◌ {ℓ} : {B : Type ℓ} → Result (Unit {0}) → Result B → Result B
m >> k = m >>= λ _. k

-- if test: raise HTTPException(status_code=code)
abbrev pub raise_if : Bool → ℕ → Result (Unit {0})
raise_if true code = http_error code
raise_if false code = ok tt

-- row = fetchone(); if not row: raise HTTPException(status_code=code)
abbrev pub or_raise {ℓ} : {A : Type ℓ} → Option A → ℕ → Result A
or_raise none code = http_error code
or_raise (some a) code = ok a

pub Result-cases {ℓ} :
    {A : Type ℓ} (r : Result A) → ((a : A) × (r ≡ ok a)) ⊎ ((n : ℕ) × (r ≡ http_error n))
Result-cases (ok a) = inl (a, refl)
Result-cases (http_error n) = inr (n, refl)

-- ===== src/Database/Transaction.antt =====
-- `with db() as conn`: a handler reads and writes the tables, and an exception rolls back all that it
-- wrote, so a transaction that raises leaves no new state. Also `audit` of backend/app/core.py.
use server_vps.Prelude.{
  ℕ, String, Bool, true, false, Option, none, some, [], ◌∷◌, ◌++◌, Result, ok, http_error,
  Result-cases, ◌≡◌, inl, inr,
}
use server_vps.Database.Rows.{Db}

abbrev pub Tx : Type 0 → Type 0
Tx A = Db → Result (A × Db)

abbrev pub pure : {A : Type 0} → A → Tx A
pure a d = ok (a, d)

abbrev pub raise : {A : Type 0} → ℕ → Tx A
raise code d = http_error code

infixl 5 ◌>>=◌ ◌>>◌
abbrev pub ◌>>=◌ : {A B : Type 0} → Tx A → (A → Tx B) → Tx B
◌>>=◌ m f d = elim (m d) [ ok (a, d') ↦ f a d' | http_error code ↦ http_error code ]

abbrev pub ◌>>◌ : {B : Type 0} → Tx Unit → Tx B → Tx B
m >> k = m >>= λ _. k

-- A query that writes nothing.
abbrev pub query : {A : Type 0} → (Db → A) → Tx A
query f d = ok (f d, d)

-- A statement that returns nothing.
abbrev pub modify : (Db → Db) → Tx Unit
modify f d = ok (tt, f d)

-- if test: raise HTTPException(status_code=code)
abbrev pub raise_when : Bool → ℕ → Tx Unit
raise_when true code d = http_error code
raise_when false code d = ok (tt, d)

-- if not row: raise HTTPException(status_code=code)
abbrev pub found_or : {A : Type 0} → ℕ → Option A → Tx A
found_or code none d = http_error code
found_or code (some a) d = ok (a, d)

-- What does not touch the tables but may raise.
abbrev pub lift : {A : Type 0} → Result A → Tx A
lift (ok a) d = ok (a, d)
lift (http_error code) d = http_error code

-- if test: statement
abbrev pub when : Bool → Tx Unit → Tx Unit
when true m = m
when false m = pure tt

abbrev pub audit : String → String → String → ℕ → ℕ → Tx Unit
audit actor action kind id ts = modify λ d. record d {
  audit_logs =
      d.audit_logs
      ++ record {
        actor = actor;
        action = action;
        target_kind = kind;
        target_id = id;
        target_name = [];
        created_at = ts;
      }
        ∷ [];
}

-- The database after a request: an exception leaves it as it was.
abbrev pub after : {A : Type 0} → Tx A → Db → Db
after m d = elim (m d) [ ok (a, d') ↦ d' | http_error code ↦ d ]

-- What holds before a request and after each way it can succeed holds after it.
pub after-keeps :
    {A : Type 0} (P : Db → Type 0) (m : Tx A) (d : Db)
    → P d
    → ((a : A) (d' : Db) → m d ≡ ok (a, d') → P d')
    → P (after m d)
after-keeps P m d h k = elim (Result-cases (m d)) [
  | inr (code, e) ↦ rw (e, after) h
  | inl ((a, d'), e) ↦ rw (e, after) (k a d' e)
]

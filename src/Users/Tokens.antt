-- ===== src/Users/Tokens.antt =====
-- `create_api_token` of backend/app/users/routes.py. The random token and its hash are parameters; the name, the preview
-- and the id of the row, which the audit names, are left out.
use server_vps.Prelude.{
  ℕ, suc, ◌≤◌, String, ◌≡◌, inl, inr, false, Option, List, [], ◌∷◌, ◌++◌, Text, codes, arith, ok,
  length, select, leb, ◌==◌, if◌then◌else◌, Option-cases,
}
use server_vps.Database.{
  Db, User, ApiToken, Tx, pure, query, modify, raise_when, audit, after, after-keeps, ◌>>=◌, ◌>>◌,
}
use server_vps.Auth.{require_user}

-- SELECT COUNT(*) FROM api_tokens WHERE user_id = ...
unfoldable pub token_count : ℕ → Db → ℕ
token_count user_id d = length (select (λ (t : ApiToken). t.user_id == user_id) d.api_tokens)

module _ (sha256 : Text → String) where
  -- What the token_urlsafe function returns is `random`.
  unfoldable pub create_api_token : Option User → ℕ → Text → ℕ → Tx Text
  create_api_token request ts random expires_at = do
    user ← require_user request
    count ← query (token_count user.id)
    raise_when (leb 10 count) 400
    let raw = codes "sk_" ++ random
    let row : ApiToken = record {
      token_hash = sha256 raw;
      user_id = user.id;
      expires_at = expires_at;
      last_used_at = 0;
    }
    modify (λ d. record d { api_tokens = d.api_tokens ++ row ∷ [] })
    audit user.username "create-api-token" "api-token" 0 ts
    pure raw

  -- Requests one after another, each with its caller, its time, its random text and its expiry.
  unfoldable pub create_all : List (Option User × (ℕ × (Text × ℕ))) → Db → Db
  create_all [] d = d
  create_all ((request, (ts, (random, expires_at))) ∷ rest) d =
      create_all rest (after (create_api_token request ts random expires_at) d)

count-insert :
    (user_id : ℕ) (xs : List ApiToken) (t : ApiToken)
    → length (select (λ (x : ApiToken). x.user_id == user_id) (xs ++ t ∷ [])) ≡ (
        if t.user_id == user_id
        then suc (length (select (λ (x : ApiToken). x.user_id == user_id) xs))
        else length (select (λ (x : ApiToken). x.user_id == user_id) xs))
unfolding select
count-insert user_id [] t = ground arith
count-insert user_id (x ∷ xs) t = ground (arith, count-insert user_id xs t)

-- No user has more than 10 tokens.
abbrev pub HasFewTokens : Db → Type 0
HasFewTokens d = (user_id : ℕ) → token_count user_id d ≤ 10

create_api_token-HasFewTokens :
    (sha256 : Text → String) (request : Option User) (ts : ℕ) (random : Text) (expires_at : ℕ)
    (d d' : Db) (raw : Text)
    → HasFewTokens d
    → create_api_token sha256 request ts random expires_at d ≡ ok (raw, d')
    → HasFewTokens d'
unfolding create_api_token require_user token_count
create_api_token-HasFewTokens sha256 request ts random expires_at d d' raw few h user_id =
    elim (Option-cases request) [
      | inl e ↦ absurd (ground (arith, e, h))
      | inr (user, e) ↦
          let row : ApiToken = record {
            token_hash = sha256 (codes "sk_" ++ random);
            user_id = user.id;
            expires_at = expires_at;
            last_used_at = 0;
          } in
          let rows : d'.api_tokens ≡ d.api_tokens ++ row ∷ [] = ground (arith, e, h) in
          let below : leb 10 (token_count user.id d) ≡ false = ground (arith, e, h) in
          ground
            (arith, rows, below, count-insert user_id d.api_tokens row, few user_id, few user.id)
    ]

-- However many tokens are asked for, no user ever has more than 10, if none had more before.
pub create_all-HasFewTokens :
    (sha256 : Text → String) (requests : List (Option User × (ℕ × (Text × ℕ)))) (d : Db)
    → HasFewTokens d
    → HasFewTokens (create_all sha256 requests d)
unfolding create_all
create_all-HasFewTokens sha256 [] d few = few
create_all-HasFewTokens sha256 ((request, (ts, (random, expires_at))) ∷ rest) d few =
    create_all-HasFewTokens sha256 rest
      (after (create_api_token sha256 request ts random expires_at) d)
      (after-keeps HasFewTokens (create_api_token sha256 request ts random expires_at) d few
        (λ raw d' e.
          create_api_token-HasFewTokens sha256 request ts random expires_at d d' raw few e))

-- ===== src/Auth.antt =====
-- backend/app/auth.py, and the session parts of `login`, `logout` and `change_password` in
-- backend/app/auth_routes.py. SHA-256 and the random token are parameters.
pub mod Policy
pub mod Password
pub mod Sessions
use server_vps.Prelude.{
  ℕ, ◌+◌, ◌*◌, String, str_eq, Bool, true, false, not, ◌&&◌, ◌||◌, Option, none, some, List, [],
  ◌∷◌, ◌++◌, Text, is_empty, leb, ◌==◌, if◌then◌else◌, find, update, delete, ◌≡◌,
}
use server_vps.Database.{
  User, AuthSession, ApiToken, Db, Tx, pure, query, modify, raise, found_or, raise_when, ◌>>=◌,
  ◌>>◌,
}

-- group_name in ("platform_admin", "admin", "teacher")
unfoldable pub is_admin_group : String → Bool
is_admin_group g = str_eq g "platform_admin" || str_eq g "admin" || str_eq g "teacher"

unfoldable pub role_for_group : String → String
role_for_group group_name = if is_admin_group group_name then "admin" else "member"

unfoldable pub is_admin_user : Option User → Bool
is_admin_user none = false
is_admin_user (some u) = str_eq u.role "admin" || is_admin_group u.group_name

unfoldable pub normalize_user_role : User → User
normalize_user_role u = record u {
  role = if is_admin_group u.group_name && not (str_eq u.role "admin") then "admin" else u.role;
}

-- `require_user` and `require_admin`, on the context variable `request_user`.
unfoldable pub require_user : Option User → Tx User
require_user u = found_or 401 u

unfoldable pub require_admin : Option User → Tx User
unfolding require_user is_admin_user
require_admin u = do
  user ← require_user u
  raise_when (not (is_admin_user (some user))) 403
  pure user

-- JOIN users u ON u.id = ... WHERE ... AND u.enabled = TRUE
unfoldable pub enabled_user : List User → ℕ → Option User
enabled_user users id = find (λ u. u.id == id && u.enabled) users

-- The first query of `authenticate_token`: a session of the token that has not expired.
unfoldable pub session_user : List User → List AuthSession → String → ℕ → Option User
session_user users [] hashed now = none
session_user users (s ∷ ss) hashed now =
    let rest = session_user users ss hashed now in
    if str_eq s.token_hash hashed && leb now s.expires_at
    then elim (enabled_user users s.user_id) [ none ↦ rest | some u ↦ some u ]
    else rest

-- The second one: a personal API token, which never expires where `expires_at` is 0.
unfoldable pub api_token_user : List User → List ApiToken → String → ℕ → Option User
api_token_user users [] hashed now = none
api_token_user users (t ∷ ts) hashed now =
    let rest = api_token_user users ts hashed now in
    if str_eq t.token_hash hashed && (t.expires_at == 0 || leb now t.expires_at)
    then elim (enabled_user users t.user_id) [ none ↦ rest | some u ↦ some u ]
    else rest

unfoldable pub touch_session : String → ℕ → List AuthSession → List AuthSession
touch_session hashed now =
    update (λ s. str_eq s.token_hash hashed) (λ s. record s { last_seen_at = now })

unfoldable pub touch_api_token : String → ℕ → List ApiToken → List ApiToken
touch_api_token hashed now =
    update (λ t. str_eq t.token_hash hashed) (λ t. record t { last_used_at = now })

module _ (sha256 : Text → String) where
  unfoldable pub authenticate_token : Text → ℕ → Db → Option User × Db
  authenticate_token token now d =
      let hashed = sha256 token in
      let by_api_token : Option User × Db = elim (api_token_user d.users d.api_tokens hashed now) [
        | none ↦ (none, d)
        | some u ↦ (
          some (normalize_user_role u),
          record d { api_tokens = touch_api_token hashed now d.api_tokens },
        )
      ] in
      let by_session : Option User × Db = elim (session_user d.users d.auth_sessions hashed now) [
        | none ↦ by_api_token
        | some u ↦ (
          some (normalize_user_role u),
          record d { auth_sessions = touch_session hashed now d.auth_sessions },
        )
      ] in
      if is_empty token then (none, d) else by_session

  -- SESSION_TTL_HOURS is `ttl_hours`; `token` is what `secrets.token_urlsafe` returns.
  unfoldable pub create_session : ℕ → Text → ℕ → ℕ → Db → (Text × ℕ) × Db
  create_session ttl_hours token user_id now d =
      let expires = now + ttl_hours * 3600 in
      (
        (token, expires),
        record d {
          auth_sessions =
              d.auth_sessions
              ++ record {
                token_hash = sha256 token;
                user_id = user_id;
                created_at = now;
                expires_at = expires;
                last_seen_at = now;
              }
                ∷ [];
        },
      )

  -- DELETE FROM auth_sessions WHERE token_hash = ...
  unfoldable pub logout : Text → Db → Db
  logout token d = if is_empty token then d else record d {
    auth_sessions = delete (λ s. str_eq s.token_hash (sha256 token)) d.auth_sessions;
  }

-- DELETE FROM auth_sessions WHERE user_id = ..., which `change_password` ends with.
unfoldable pub revoke_sessions : ℕ → Db → Db
revoke_sessions user_id d = record d {
  auth_sessions = delete (λ s. s.user_id == user_id) d.auth_sessions;
}

-- ===== src/Tests/Accounts.antt =====
-- Sessions and roles.
use mathlib.Core.Option
use server_vps.Prelude.{
  length, ◌≤◌, ◌==◌, find, text_eq, ◌↔◌, ℕ, ◌+◌, ◌*◌, String, str_eq, eq_iff, ◌≡◌, ◌≢◌, ◌⊎◌, inl,
  inr, refl, true, false, none, some, List, [], ◌∷◌, Text, codes, leb, arith, ok, http_error,
  if◌then◌else◌, is_empty, IsIn,
}
use server_vps.Database.{Db, User, AuthSession, ApiToken}
use server_vps.Auth.{
  is_admin_user, require_admin, normalize_user_role, enabled_user, api_token_user, session_user,
  authenticate_token, create_session, logout,
}
use server_vps.Auth.Policy.{IsAdministrator, require_admin_lem}
use server_vps.Auth.Password.{change_password, change_password_sound}
use server_vps.Auth.Sessions.{
  IsLive, IsGood, authenticate_token-create_session, authenticate_token_sound,
  authenticate_token-logout,
}
use server_vps.Tests.Data.{alice, root, session, database, hash}

-- A hash that tells the token "t" from the empty one.
abbrev two_hashes : Text → String
two_hashes [] = "h"
two_hashes (c ∷ token) = "k"

require_admin_lem_example :
    ((require_admin (some alice) (database "running") ≡ ok (alice, database "running"))
      ↔ IsAdministrator alice)
    × ((require_admin (some alice) (database "running") ≡ ok (alice, database "running"))
        ⊎ (require_admin (some alice) (database "running") ≡ http_error 403))
    × (require_admin none (database "running") ≡ http_error 401)
    × (((normalize_user_role alice).role ≡ "admin") ↔ IsAdministrator alice)
require_admin_lem_example = require_admin_lem alice (database "running")

authenticate_token-create_session_example :
    (authenticate_token two_hashes
      (codes "t")
      4
      (create_session two_hashes 2 (codes "t") 1 3 (database "running")).1).0
    ≡ (if leb 4 (3 + 2 * 3600)
        then Option.map normalize_user_role (enabled_user (alice ∷ root ∷ []) 1)
        else none)
unfolding server_vps.Prelude.exists
authenticate_token-create_session_example =
    authenticate_token-create_session two_hashes 2 (codes "t") 1 3 4 (database "running") refl refl
      refl

authenticate_token_sound_example :
    (is_empty (codes "t") ≡ false)
    × ((u : User) × (alice ≡ normalize_user_role u)
        × (((s : AuthSession) × IsIn s (session ∷ []) × IsLive (alice ∷ root ∷ []) "h" 5 u s)
            ⊎ ((a : ApiToken) × IsIn a [] × IsGood (alice ∷ root ∷ []) "h" 5 u a)))
unfolding authenticate_token session_user enabled_user server_vps.Prelude.find normalize_user_role
    server_vps.Auth.is_admin_group
authenticate_token_sound_example =
    authenticate_token_sound hash (codes "t") 5 (database "running") alice refl

abbrev other_session : Db
other_session = record (database "running") {
  auth_sessions = record session { token_hash = "k" } ∷ session ∷ [];
}

k_ne_h : two_hashes (codes "t") ≢ two_hashes []
k_ne_h e = let same : false ≡ true = (eq_iff "k" "h").1 e in absurd (ground (arith, same))

authenticate_token-logout_example :
    ((authenticate_token two_hashes (codes "t") 5 (logout two_hashes (codes "t") other_session)).0
      ≡ Option.map normalize_user_role (api_token_user (alice ∷ root ∷ []) [] "k" 5))
    × ((authenticate_token two_hashes [] 5 (logout two_hashes (codes "t") other_session)).0
        ≡ (authenticate_token two_hashes [] 5 other_session).0)
authenticate_token-logout_example =
    authenticate_token-logout two_hashes (codes "t") [] 5 other_session refl k_ne_h

-- A stored password is the password itself.
abbrev changed : Db
changed = record (database "running") {
  users = record alice { password_hash = codes "new password" } ∷ root ∷ [];
  auth_sessions = [];
}

change_succeeds :
    change_password
      (λ key. none)
      text_eq
      (λ p. p)
      (some alice)
      (codes "old")
      (codes "new password")
      (database "running")
    ≡ ok (tt, changed)
unfolding server_vps.Auth.Password.change_password server_vps.Settings.Read.get_platform_settings
    server_vps.Settings.Read.settings_of server_vps.Settings.Read.int_setting
    server_vps.Prelude.parse_int server_vps.Prelude.signed server_vps.Prelude.strip
    server_vps.Settings.or_text server_vps.Settings.Read.raw_setting server_vps.Prelude.lookup
    server_vps.Settings.legacy_sso_defaults server_vps.Prelude.text_eq server_vps.Settings.one_of
    server_vps.Prelude.exists server_vps.Settings.provider_parts server_vps.Prelude.split_first
    server_vps.Settings.first_item server_vps.Auth.Password.has_provider
    server_vps.Auth.Password.password_change_enabled server_vps.Auth.Password.store_password
    server_vps.Auth.require_user server_vps.Auth.revoke_sessions server_vps.Prelude.at_least
    server_vps.Prelude.is_digit server_vps.Prelude.negated server_vps.Prelude.scan
    server_vps.Prelude.split server_vps.Prelude.upper server_vps.Prelude.is_space
    server_vps.Prelude.lower server_vps.Prelude.lstrip server_vps.Prelude.delete
    server_vps.Prelude.find server_vps.Prelude.select server_vps.Prelude.update
    server_vps.Settings.Read.add_canary_id server_vps.Settings.Read.canary_ids
    server_vps.Settings.Read.cas_version server_vps.Settings.cas_settings
    server_vps.Settings.get_env server_vps.Settings.oidc_settings
    server_vps.Settings.platform_setting_defaults server_vps.Settings.setting_to_bool
    server_vps.Prelude.rstrip_of server_vps.Prelude.lstrip_of server_vps.Prelude.starts_with
change_succeeds = refl

change_password_sound_example :
    (user : User) × (stored : User) × (some alice ≡ some user)
    × (find (λ u. u.id == user.id) (database "running").users ≡ some stored)
    × (text_eq (codes "old") stored.password_hash ≡ true)
    × (10 ≤ length (codes "new password"))
    × (find (λ u. u.id == user.id) changed.users
        ≡ some (record stored { password_hash = codes "new password" }))
    × ((hashed : String) (t : ℕ) (u : User)
        → session_user changed.users changed.auth_sessions hashed t ≡ some u
        → u.id ≢ user.id)
change_password_sound_example =
    change_password_sound (λ key. none) text_eq (λ p. p) (some alice) (codes "old")
      (codes "new password") (database "running") changed change_succeeds

-- ===== src/Auth/Password.antt =====
-- `change_password` of backend/app/auth_routes.py, with backend/app/auth_policy.py and the part of
-- backend/app/sso/registry.py that tells whether there is a provider.
use server_vps.Prelude.{
  ℕ, ◌≤◌, ◌≡◌, ◌≢◌, inl, inr, Bool, true, false, not, ◌&&◌, ◌||◌, Option, some, List, [], ◌∷◌, Text,
  String, codes, text_eq, is_empty, length, ltb, ◌==◌, if◌then◌else◌, arith, find, update,
  Option-cases, Result-cases, ok, Bool-cases,
}
use server_vps.Database.{Db, User, Tx, query, modify, raise_when, found_or, lift, ◌>>=◌, ◌>>◌}
use server_vps.Auth.{require_user, revoke_sessions, session_user}
use server_vps.Auth.Sessions.{session_user-revoke_sessions}
use server_vps.Settings.{PlatformSettings}
use server_vps.Settings.Read.{get_platform_settings}

-- Whether `_build_provider` returns a provider.
unfoldable pub has_provider : PlatformSettings → Bool
has_provider s =
    if not s.sso_provider_enabled
    then false
    else if text_eq s.sso_provider_type (codes "cas")
    then not (is_empty s.sso_cas_server_url)
    else text_eq s.sso_provider_type (codes "oidc")
      && not (is_empty s.sso_oidc_client_id)
      && not (is_empty s.sso_oidc_client_secret)
      && (not (is_empty s.sso_oidc_issuer)
          || (not (is_empty s.sso_oidc_authorization_endpoint)
              && not (is_empty s.sso_oidc_token_endpoint)
              && not (is_empty s.sso_oidc_userinfo_endpoint)))

unfoldable pub password_change_enabled : PlatformSettings → Bool → Bool
password_change_enabled s sso_enabled =
    not (sso_enabled && text_eq s.sso_provider_type (codes "oidc"))

-- `hash_password` draws a salt, and `verify_password` computes PBKDF2: both are parameters.
module _ (env : Text → Option Text) (verify_password : Text → Text → Bool)
    (hash_password : Text → Text) where
  unfoldable pub store_password : ℕ → Text → Db → Db
  store_password user_id password d = record d {
    users =
        update (λ u. u.id == user_id) (λ u. record u { password_hash = hash_password password })
          d.users;
  }

  unfoldable pub change_password : Option User → Text → Text → Tx Unit
  change_password request current_password new_password = do
    table ← query (λ d. d.system_settings)
    settings ← lift (get_platform_settings env table)
    raise_when (not (password_change_enabled settings (has_provider settings))) 403
    raise_when (ltb (length new_password) 10) 400
    user ← require_user request
    users ← query (λ d. d.users)
    stored ← found_or 500 (find (λ u. u.id == user.id) users)
    raise_when (not (verify_password current_password stored.password_hash)) 400
    modify (store_password user.id new_password)
    modify (revoke_sessions user.id)

  find-store_password :
      (id : ℕ) (password : Text) (us : List User) (u : User)
      → find (λ x. x.id == id) us ≡ some u
      → find
          (λ x. x.id == id)
          (update (λ x. x.id == id) (λ x. record x { password_hash = hash_password password }) us)
        ≡ some (record u { password_hash = hash_password password })
  unfolding find update
  find-store_password id password [] u h = ground (arith, h)
  find-store_password id password (x ∷ us) u h = elim (Bool-cases (x.id == id)) [
    | inr e ↦ ground (arith, e, h, find-store_password id password us u)
    | inl e ↦ ground (arith, e, h)
  ]

  stored_after :
      (id : ℕ) (password : Text) (d : Db) (u : User)
      → find (λ x. x.id == id) d.users ≡ some u
      → find (λ x. x.id == id) (revoke_sessions id (store_password id password d)).users
        ≡ some (record u { password_hash = hash_password password })
  unfolding revoke_sessions store_password
  stored_after id password d u h = find-store_password id password d.users u h

  closed_after :
      (id : ℕ) (d : Db) (hashed : String) (t : ℕ) (u : User)
      → session_user (revoke_sessions id d).users (revoke_sessions id d).auth_sessions hashed t
        ≡ some u
      → u.id ≢ id
  unfolding revoke_sessions
  closed_after id d hashed t u h = session_user-revoke_sessions d hashed t id u h

  -- A change of password that succeeds was asked for by a signed-in user who gave the password stored before and a new
  -- one of at least 10 characters; the new one is stored for that user, and no session in the table opens that user
  -- any more, at any time.
  pub change_password_sound :
      (request : Option User) (current_password new_password : Text) (d d' : Db)
      → change_password request current_password new_password d ≡ ok (tt, d')
      → (user : User) × (stored : User) × (request ≡ some user)
        × (find (λ u. u.id == user.id) d.users ≡ some stored)
        × (verify_password current_password stored.password_hash ≡ true)
        × (10 ≤ length new_password)
        × (find (λ u. u.id == user.id) d'.users
            ≡ some (record stored { password_hash = hash_password new_password }))
        × ((hashed : String) (t : ℕ) (u : User)
            → session_user d'.users d'.auth_sessions hashed t ≡ some u
            → u.id ≢ user.id)
  unfolding change_password require_user
  change_password_sound request current_password new_password d d' h =
      elim (Result-cases (get_platform_settings env d.system_settings)) [
        | inr (code, e) ↦ absurd (ground (arith, e, h))
        | inl (settings, e) ↦ elim (Option-cases request) [
          | inl f ↦ absurd (ground (arith, e, f, h))
          | inr (user, f) ↦ elim (Option-cases (find (λ (u : User). u.id == user.id) d.users)) [
            | inl g ↦ absurd (ground (arith, e, f, g, h))
            | inr (stored, g) ↦
                let changed = store_password user.id new_password d in
                let final : d' ≡ revoke_sessions user.id changed = ground (arith, e, f, g, h) in
                (
                  user,
                  stored,
                  f,
                  g,
                  ground (arith, e, f, g, h),
                  ground (arith, e, f, g, h),
                  rw final (stored_after user.id new_password d stored g),
                  λ hashed t u k. closed_after user.id changed hashed t u (rw final at k),
                )
          ]
        ]
      ]

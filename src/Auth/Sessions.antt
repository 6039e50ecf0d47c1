-- ===== src/Auth/Sessions.antt =====
-- What a token opens, and for how long.
use mathlib.Core.Option
use server_vps.Prelude.{
  ℕ, ◌+◌, ◌*◌, ◌≤◌, String, Text, ◌≡◌, ◌≢◌, refl, ◌⊎◌, inl, inr, true, false, ◌&&◌, ◌||◌, none,
  some, List, [], ◌∷◌, ◌++◌, arith, eq_iff, str_eq, is_empty, leb, ◌==◌, if◌then◌else◌, exists,
  delete, IsIn, IsIn-delete, find_sound, Option-cases, Bool-cases,
}
use server_vps.Database.{User, AuthSession, ApiToken, Db}
use server_vps.Auth.{
  normalize_user_role, enabled_user, session_user, api_token_user, authenticate_token,
  create_session, logout, revoke_sessions,
}

session_user-append :
    (users : List User) (ss : List AuthSession) (s : AuthSession) (h : String) (t : ℕ)
    → exists (λ x. str_eq x.token_hash h) ss ≡ false
    → s.token_hash ≡ h
    → session_user users (ss ++ s ∷ []) h t
      ≡ (if leb t s.expires_at then enabled_user users s.user_id else none)
unfolding session_user exists
session_user-append users [] s h t fresh e = ground (arith, eq_iff s.token_hash h)
session_user-append users (x ∷ ss) s h t fresh e =
    ground (arith, session_user-append users ss s h t)

api_token_user_fresh :
    (users : List User) (ts : List ApiToken) (h : String) (t : ℕ)
    → exists (λ x. str_eq x.token_hash h) ts ≡ false
    → api_token_user users ts h t ≡ none
unfolding api_token_user exists
api_token_user_fresh users [] h t fresh = refl
api_token_user_fresh users (x ∷ ts) h t fresh = ground (arith, api_token_user_fresh users ts h t)

module _ (sha256 : Text → String) where
  -- A new session's token, whose hash no row has yet, signs its user in at time t exactly if t is
  -- not past the login time plus the session's hours and the user is enabled.
  pub authenticate_token-create_session :
      (ttl_hours : ℕ) (token : Text) (user_id now t : ℕ) (d : Db)
      → is_empty token ≡ false
      → exists (λ s. str_eq s.token_hash (sha256 token)) d.auth_sessions ≡ false
      → exists (λ a. str_eq a.token_hash (sha256 token)) d.api_tokens ≡ false
      → (authenticate_token sha256 token t
          (create_session sha256 ttl_hours token user_id now d).1).0
        ≡ (if leb t (now + ttl_hours * 3600)
            then Option.map normalize_user_role (enabled_user d.users user_id)
            else none)
  unfolding authenticate_token create_session
  authenticate_token-create_session ttl_hours token user_id now t d full fresh fresh' =
      let h = sha256 token in
      ground (
        arith,
        api_token_user_fresh d.users d.api_tokens h t fresh',
        session_user-append d.users d.auth_sessions
            (record {
              token_hash = h;
              user_id = user_id;
              created_at = now;
              expires_at = now + ttl_hours * 3600;
              last_seen_at = now;
            })
            h t fresh refl,
      )

-- A session that is good for its token: unexpired, of an enabled user of the table.
abbrev pub IsLive : List User → String → ℕ → User → AuthSession → Type 0
IsLive users h t u s =
    (s.token_hash ≡ h) × (t ≤ s.expires_at) × (s.user_id ≡ u.id) × (u.enabled ≡ true) × IsIn u users

abbrev pub IsGood : List User → String → ℕ → User → ApiToken → Type 0
IsGood users h t u a =
    (a.token_hash ≡ h)
    × ((a.expires_at ≡ 0) ⊎ (t ≤ a.expires_at))
    × (a.user_id ≡ u.id)
    × (u.enabled ≡ true)
    × IsIn u users

enabled_user_sound :
    (users : List User) (id : ℕ) (u : User)
    → enabled_user users id ≡ some u
    → (u.id ≡ id) × (u.enabled ≡ true) × IsIn u users
unfolding enabled_user
enabled_user_sound users id u h =
    ground (arith, find_sound (λ v. v.id == id && v.enabled) users u h)

session_user_sound :
    (users : List User) (ss : List AuthSession) (h : String) (t : ℕ) (u : User)
    → session_user users ss h t ≡ some u
    → (s : AuthSession) × IsIn s ss × IsLive users h t u s
unfolding session_user
session_user_sound users [] h t u e = ground arith
session_user_sound users (s ∷ ss) h t u e =
    elim (Bool-cases (str_eq s.token_hash h && leb t s.expires_at)) [
      | inl live ↦ elim (Option-cases (enabled_user users s.user_id)) [
        | inl n ↦
            let (x, i, l) = session_user_sound users ss h t u (ground (arith, live, n)) in
            (x, inr i, l)
        | inr (v, f) ↦
            let (a, b, c) = enabled_user_sound users s.user_id v f in
            (s, inl refl, ground (arith, live, f, a, b, c, eq_iff s.token_hash h))
      ]
      | inr dead ↦
          let (x, i, l) = session_user_sound users ss h t u (ground (arith, dead)) in (x, inr i, l)
    ]

api_token_user_sound :
    (users : List User) (ts : List ApiToken) (h : String) (t : ℕ) (u : User)
    → api_token_user users ts h t ≡ some u
    → (a : ApiToken) × IsIn a ts × IsGood users h t u a
unfolding api_token_user
api_token_user_sound users [] h t u e = ground arith
api_token_user_sound users (a ∷ ts) h t u e =
    let test = str_eq a.token_hash h && (a.expires_at == 0 || leb t a.expires_at) in
    elim (Bool-cases test) [
      | inl live ↦ elim (Option-cases (enabled_user users a.user_id)) [
        | inl n ↦
            let (x, i, l) = api_token_user_sound users ts h t u (ground (arith, live, n)) in
            (x, inr i, l)
        | inr (v, f) ↦
            let (p, q, r) = enabled_user_sound users a.user_id v f in
            (a, inl refl, ground (arith, live, f, p, q, r, eq_iff a.token_hash h))
      ]
      | inr dead ↦
          let (x, i, l) = api_token_user_sound users ts h t u (ground (arith, dead)) in
          (x, inr i, l)
    ]

-- A token that signs somebody in at time t has an unexpired session or an unexpired API token of
-- its hash; the user is the enabled one that the row names, with the role normalised.
pub authenticate_token_sound :
    (sha256 : Text → String) (token : Text) (t : ℕ) (d : Db) (w : User)
    → (authenticate_token sha256 token t d).0 ≡ some w
    → (is_empty token ≡ false)
      × ((u : User) × (w ≡ normalize_user_role u)
          × (((s : AuthSession) × IsIn s d.auth_sessions × IsLive d.users (sha256 token) t u s)
              ⊎ ((a : ApiToken) × IsIn a d.api_tokens × IsGood d.users (sha256 token) t u a)))
unfolding authenticate_token
authenticate_token_sound sha256 [] t d w e = ground arith
authenticate_token_sound sha256 (c ∷ cs) t d w e =
    let h = sha256 (c ∷ cs) in
    elim (Option-cases (session_user d.users d.auth_sessions h t)) [
      | inr (u, f) ↦
          (refl, (u, ground (arith, f), inl (session_user_sound d.users d.auth_sessions h t u f)))
      | inl n ↦ elim (Option-cases (api_token_user d.users d.api_tokens h t)) [
        | inr (u, f) ↦ (
          refl,
          (u, ground (arith, n, f), inr (api_token_user_sound d.users d.api_tokens h t u f)),
        )
        | inl m ↦ absurd (ground (arith, n, m))
      ]
    ]

session_user-delete_self :
    (users : List User) (ss : List AuthSession) (h : String) (t : ℕ)
    → session_user users (delete (λ s. str_eq s.token_hash h) ss) h t ≡ none
session_user-delete_self users ss h t =
    elim (Option-cases (session_user users (delete (λ s. str_eq s.token_hash h) ss) h t)) [
      | inl n ↦ n
      | inr (u, e) ↦
          let (s, i, live) = session_user_sound users _ h t u e in
          let gone = IsIn-delete (λ s. str_eq s.token_hash h) ss s i in
          absurd (ground (arith, gone, live, eq_iff s.token_hash h))
    ]

session_user-delete_ne :
    (users : List User) (ss : List AuthSession) (h k : String) (t : ℕ)
    → h ≢ k
    → session_user users (delete (λ s. str_eq s.token_hash h) ss) k t ≡ session_user users ss k t
unfolding session_user delete
session_user-delete_ne users [] h k t ne = refl
session_user-delete_ne users (s ∷ ss) h k t ne =
    ground (
      arith,
      session_user-delete_ne users ss h k t ne,
      eq_iff s.token_hash h,
      eq_iff s.token_hash k,
    )

module _ (sha256 : Text → String) where
  -- After a logout the token, if not empty, signs in only by an API token of the same hash; any token with another
  -- hash signs in as before.
  pub authenticate_token-logout :
      (token other : Text) (t : ℕ) (d : Db)
      → is_empty token ≡ false
      → sha256 token ≢ sha256 other
      → ((authenticate_token sha256 token t (logout sha256 token d)).0
          ≡ Option.map normalize_user_role (api_token_user d.users d.api_tokens (sha256 token) t))
        × ((authenticate_token sha256 other t (logout sha256 token d)).0
            ≡ (authenticate_token sha256 other t d).0)
  unfolding logout authenticate_token
  authenticate_token-logout token other t d full ne = (
    ground (arith, session_user-delete_self d.users d.auth_sessions (sha256 token) t),
    ground
        (arith, session_user-delete_ne d.users d.auth_sessions (sha256 token) (sha256 other) t ne),
  )

-- After `change_password` has dropped a user's sessions, no session opens that user.
pub session_user-revoke_sessions :
    (d : Db) (h : String) (t id : ℕ) (u : User)
    → session_user d.users (revoke_sessions id d).auth_sessions h t ≡ some u
    → u.id ≢ id
unfolding revoke_sessions
session_user-revoke_sessions d h t id u e =
    let (s, i, live) = session_user_sound d.users _ h t u e in
    let kept = IsIn-delete (λ x. x.user_id == id) d.auth_sessions s i in ground (arith, live, kept)

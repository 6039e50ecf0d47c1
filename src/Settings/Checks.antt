-- ===== src/Settings/Checks.antt =====
-- The checks of `platform_settings_put` in backend/app/settings/routes.py. Which time zones `ZoneInfo` knows is a
-- parameter.
use server_vps.Prelude.{
  ℕ, String, Bool, false, not, ◌&&◌, ◌||◌, List, [], ◌∷◌, Text, codes, text_eq, strip, lower,
  starts_with, is_empty, split, length, exists, ltb, leb, ◌==◌, if◌then◌else◌, Result, raise_if,
  ◌>>◌,
}
use server_vps.Settings.{PlatformSettings, or_text}

unfoldable pub is_lower_letter : ℕ → Bool
is_lower_letter c = leb 97 c && leb c 122

unfoldable pub is_alphanumeric : ℕ → Bool
is_alphanumeric c = is_lower_letter c || (leb 65 c && leb c 90) || (leb 48 c && leb c 57)

-- A character of the first class, and from `low` to `high` ones of the second.
unfoldable pub fullmatch : (ℕ → Bool) → (ℕ → Bool) → ℕ → ℕ → Text → Bool
fullmatch first rest low high [] = false
fullmatch first rest low high (c ∷ s) =
    first c && leb low (length s) && leb (length s) high && not (exists (λ x. not (rest x)) s)

-- [a-z][a-z0-9_-]{1,31}
unfoldable pub is_provider_name : Text → Bool
is_provider_name =
    fullmatch is_lower_letter
      (λ c. is_lower_letter c || (leb 48 c && leb c 57) || c == 95 || c == 45) 1 31

unfoldable pub is_sentinel_rest : Text → Bool
is_sentinel_rest =
    fullmatch is_alphanumeric (λ c. is_alphanumeric c || c == 46 || c == 95 || c == 45) 1 80

-- \.?[A-Za-z0-9][A-Za-z0-9._-]{1,80}
unfoldable pub is_sentinel : Text → Bool
is_sentinel [] = false
is_sentinel (c ∷ s) = if c == 46 then is_sentinel_rest s else is_sentinel_rest (c ∷ s)

-- [A-Za-z0-9_-]{16,128}
unfoldable pub is_signature : Text → Bool
is_signature =
    let safe : ℕ → Bool = λ c. is_alphanumeric c || c == 95 || c == 45 in fullmatch safe safe 15 127

unfoldable pub has_soft_option : List Text → Bool
has_soft_option = exists (λ option. starts_with (lower (strip option)) (codes "soft"))

unfoldable pub has_option : String → List Text → Bool
has_option name = exists (λ option. text_eq (lower (strip option)) (codes name))

unfoldable pub lacks_nfs_options : List Text → Bool
lacks_nfs_options options =
    (not (has_option "vers=4.1" options) && not (has_option "nfsvers=4.1" options))
    || not (has_option "proto=tcp" options)
    || not (has_option "hard" options)

-- if value < minimum or value > maximum, one interval after another
unfoldable pub check_interval : ℕ → ℕ → ℕ → Result {0} Unit
check_interval value minimum maximum = raise_if (ltb value minimum || ltb maximum value) 400

unfoldable pub check_intervals : PlatformSettings → Result {0} Unit
check_intervals s = do
  check_interval s.agent_metrics_interval_seconds 1 60
  check_interval s.agent_heartbeat_interval_seconds 5 300
  check_interval s.agent_container_interval_seconds 5 300
  check_interval s.agent_storage_interval_seconds 30 3600
  check_interval s.agent_inventory_interval_seconds 60 86400
  check_interval s.agent_task_poll_interval_seconds 1 60
  raise_if (ltb s.agent_container_interval_seconds s.agent_heartbeat_interval_seconds) 400

unfoldable pub lacks_endpoints : PlatformSettings → Bool
lacks_endpoints s =
    is_empty (strip s.sso_oidc_authorization_endpoint)
    || is_empty (strip s.sso_oidc_token_endpoint)
    || is_empty (strip s.sso_oidc_userinfo_endpoint)

unfoldable pub check_sso : PlatformSettings → Result {0} Unit
check_sso s =
    let is_oidc = s.sso_provider_enabled && text_eq s.sso_provider_type (codes "oidc") in
    do
      raise_if (s.sso_provider_enabled && is_empty (strip s.sso_callback_base_url)) 400
      raise_if
          (s.sso_provider_enabled
            && text_eq s.sso_provider_type (codes "cas")
            && is_empty (strip s.sso_cas_server_url))
          400
      raise_if
          (is_oidc
            && (is_empty (strip s.sso_oidc_client_id) || is_empty (strip s.sso_oidc_client_secret)))
          400
      raise_if (is_oidc && is_empty (strip s.sso_oidc_issuer) && lacks_endpoints s) 400

-- The checks of the NFS settings.
unfoldable pub check_storage : PlatformSettings → Result {0} Unit
check_storage s =
    let shared = not (text_eq s.shared_storage_mode (codes "disabled")) in
    do
      raise_if (shared && is_empty (strip s.nfs_server)) 400
      raise_if (s.truenas_nfs_auto_share && is_empty (strip s.nfs_users_export)) 400
      raise_if (has_soft_option (split 44 s.nfs_mount_options)) 400
      raise_if (lacks_nfs_options (split 44 s.nfs_mount_options)) 400
      raise_if (not (is_sentinel (strip s.nfs_sentinel))) 400
      raise_if (shared && not (is_signature (strip s.nfs_sentinel_signature))) 400
      raise_if (ltb s.nfs_idmap_base 65536 || ltb 2000000000 s.nfs_idmap_base) 400

-- The sizes and periods of workspaces.
unfoldable pub check_workspaces : PlatformSettings → Result {0} Unit
check_workspaces s =
    raise_if
      (not (leb 1 s.workspace_default_gb && leb s.workspace_default_gb 100000)
        || not (leb 1 s.workspace_retention_days && leb s.workspace_retention_days 3650))
      400

unfoldable pub check_settings : (Text → Bool) → PlatformSettings → Result {0} Unit
check_settings known_zone s = do
  raise_if (not (is_provider_name s.sso_provider_name)) 400
  raise_if (not (known_zone (or_text (strip s.platform_timezone) "Asia/Shanghai"))) 400
  raise_if (ltb 100000 s.transfer_bandwidth_limit_mbps) 400
  check_storage s
  check_workspaces s
  check_intervals s
  check_sso s

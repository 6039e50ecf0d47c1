-- ===== src/Settings.antt =====
-- backend/app/platform_settings.py: the settings of the platform, their defaults, and what the environment gives for
-- the single sign-on. Numbers are natural: a negative number in a request is refused as one below its lower
-- bound is, but for `sso_cas_version`, which has none. Texts of a request that must be one of a few words are texts
-- here.
pub mod Read
pub mod Write
pub mod Checks
pub mod Update
pub mod Saved
pub mod Fields
pub mod Canary
pub mod Intervals
pub mod RoundTrip
use server_vps.Prelude.{
  negsuc, pos, ℕ, String, str_eq, Bool, true, false, ◌||◌, Option, none, some, List, [], ◌∷◌, ◌++◌,
  map, Text, codes, text_eq, strip, lower, upper, is_empty, split, split_first, exists,
  if◌then◌else◌, Dict, lookup, ℤ,
}

-- The settings as the interface sends and receives them.
pub record PlatformSettings : Type 0 where
  pub local_login_enabled : Bool
  pub platform_registration_enabled : Bool
  pub platform_registration_auto_enable : Bool
  pub platform_registration_default_group : Text
  pub sso_registration_enabled : Bool
  pub sso_auto_create_users : Bool
  pub sso_auto_enable_new_users : Bool
  pub sso_default_group : Text
  pub platform_timezone : Text
  pub transfer_bandwidth_limit_mbps : ℕ
  pub shared_storage_mode : Text
  pub shared_storage_canary_user_ids : List ℤ
  pub nfs_server : Text
  pub nfs_users_export : Text
  pub nfs_datasets_export : Text
  pub nfs_models_export : Text
  pub nfs_mount_options : Text
  pub nfs_sentinel : Text
  pub nfs_sentinel_signature : Text
  pub nfs_idmap_base : ℕ
  pub truenas_nfs_auto_share : Bool
  pub workspace_default_gb : ℕ
  pub workspace_retention_days : ℕ
  pub agent_metrics_interval_seconds : ℕ
  pub agent_heartbeat_interval_seconds : ℕ
  pub agent_container_interval_seconds : ℕ
  pub agent_storage_interval_seconds : ℕ
  pub agent_inventory_interval_seconds : ℕ
  pub agent_task_poll_interval_seconds : ℕ
  pub webhook_enabled : Bool
  pub webhook_url : Text
  pub webhook_secret : Text
  pub sso_provider_enabled : Bool
  pub sso_provider_type : Text
  pub sso_provider_name : Text
  pub sso_provider_display_name : Text
  pub sso_callback_base_url : Text
  pub sso_cas_server_url : Text
  pub sso_cas_version : ℤ
  pub sso_oidc_issuer : Text
  pub sso_oidc_authorization_endpoint : Text
  pub sso_oidc_token_endpoint : Text
  pub sso_oidc_userinfo_endpoint : Text
  pub sso_oidc_client_id : Text
  pub sso_oidc_client_secret : Text
  pub sso_oidc_scopes : Text
  pub sso_casdoor_admin_owner : Text

-- The ids but those below 0.
unfoldable pub naturals : List ℤ → List ℕ
naturals [] = []
naturals (pos n ∷ ids) = n ∷ naturals ids
naturals (negsuc n ∷ ids) = naturals ids

unfoldable pub bool_to_setting : Bool → Text
bool_to_setting value = if value then codes "1" else codes "0"

unfoldable pub setting_to_bool : Text → Bool
setting_to_bool value =
    let word = lower (strip value) in
    text_eq word (codes "1")
    || text_eq word (codes "true")
    || text_eq word (codes "yes")
    || text_eq word (codes "on")

-- value or "default"
unfoldable pub or_text : Text → String → Text
or_text value default = if is_empty value then codes default else value

-- value if value in names else "default"
unfoldable pub one_of : List String → Text → String → Text
one_of names value default =
    if exists (λ name. text_eq value (codes name)) names then value else codes default

abbrev pub group_names : List String
group_names = "platform_admin" ∷ "admin" ∷ "member" ∷ "guest" ∷ []

abbrev pub sso_provider_types : List String
sso_provider_types = "oidc" ∷ "cas" ∷ []

abbrev pub storage_modes : List String
storage_modes = "disabled" ∷ "canary" ∷ "enabled" ∷ []

-- PLATFORM_SETTING_DEFAULTS
unfoldable pub platform_setting_defaults : Dict String Text
platform_setting_defaults =
    ("local_login_enabled", codes "1")
    ∷ ("platform_registration_enabled", codes "0")
    ∷ ("platform_registration_auto_enable", codes "0")
    ∷ ("platform_registration_default_group", codes "member")
    ∷ ("sso_registration_enabled", codes "1")
    ∷ ("sso_auto_create_users", codes "1")
    ∷ ("sso_auto_enable_new_users", codes "0")
    ∷ ("sso_default_group", codes "member")
    ∷ ("platform_timezone", codes "Asia/Shanghai")
    ∷ ("transfer_bandwidth_limit_mbps", codes "0")
    ∷ ("shared_storage_mode", codes "disabled")
    ∷ ("shared_storage_canary_user_ids", codes "")
    ∷ ("nfs_server", codes "")
    ∷ ("nfs_users_export", codes "")
    ∷ ("nfs_datasets_export", codes "")
    ∷ ("nfs_models_export", codes "")
    ∷ ("nfs_mount_options", codes "hard,_netdev,noatime,vers=4.1,proto=tcp")
    ∷ ("nfs_sentinel", codes ".server-vps-nfs")
    ∷ ("nfs_sentinel_signature", codes "")
    ∷ ("nfs_idmap_base", codes "1000000")
    ∷ ("truenas_nfs_auto_share", codes "0")
    ∷ ("workspace_default_gb", codes "100")
    ∷ ("workspace_retention_days", codes "30")
    ∷ ("agent_metrics_interval_seconds", codes "2")
    ∷ ("agent_heartbeat_interval_seconds", codes "15")
    ∷ ("agent_container_interval_seconds", codes "15")
    ∷ ("agent_storage_interval_seconds", codes "60")
    ∷ ("agent_inventory_interval_seconds", codes "300")
    ∷ ("agent_task_poll_interval_seconds", codes "5")
    ∷ ("webhook_enabled", codes "0")
    ∷ ("webhook_url", codes "")
    ∷ ("webhook_secret", codes "")
    ∷ ("sso_provider_enabled", codes "0")
    ∷ ("sso_provider_type", codes "oidc")
    ∷ ("sso_provider_name", codes "casdoor")
    ∷ ("sso_provider_display_name", codes "统一认证")
    ∷ ("sso_callback_base_url", codes "")
    ∷ ("sso_cas_server_url", codes "")
    ∷ ("sso_cas_version", codes "3")
    ∷ ("sso_oidc_issuer", codes "")
    ∷ ("sso_oidc_authorization_endpoint", codes "")
    ∷ ("sso_oidc_token_endpoint", codes "")
    ∷ ("sso_oidc_userinfo_endpoint", codes "")
    ∷ ("sso_oidc_client_id", codes "")
    ∷ ("sso_oidc_client_secret", codes "")
    ∷ ("sso_oidc_scopes", codes "openid profile email")
    ∷ ("sso_casdoor_admin_owner", codes "built-in")
    ∷ []

-- os.environ.get(key, "default"), with the environment as a function
unfoldable pub get_env : (Text → Option Text) → Text → String → Text
get_env env key default = elim (env key) [ none ↦ codes default | some value ↦ value ]

-- The first item of SSO_PROVIDERS that is not blank, or the empty text.
unfoldable pub first_item : List Text → Text
first_item [] = []
first_item (item ∷ items) =
    let rest = first_item items in if is_empty (strip item) then rest else strip item

-- What stands before and after the colon of the provider's id.
unfoldable pub provider_parts : Text → Text × Text
provider_parts provider_id = elim (split_first 58 provider_id) [
  | none ↦ (codes "oidc", codes "casdoor")
  | some parts ↦ parts
]

unfoldable pub cas_settings : (Text → Option Text) → Text → Dict String Text
cas_settings env prefix =
    ("sso_cas_server_url", get_env env (prefix ++ codes "SERVER_URL") "")
    ∷ ("sso_cas_version", get_env env (prefix ++ codes "VERSION") "3")
    ∷ []

unfoldable pub oidc_settings : (Text → Option Text) → Text → Dict String Text
oidc_settings env prefix =
    ("sso_oidc_issuer", get_env env (prefix ++ codes "ISSUER") "")
    ∷ ("sso_oidc_authorization_endpoint", get_env env (prefix ++ codes "AUTHORIZATION_ENDPOINT") "")
    ∷ ("sso_oidc_token_endpoint", get_env env (prefix ++ codes "TOKEN_ENDPOINT") "")
    ∷ ("sso_oidc_userinfo_endpoint", get_env env (prefix ++ codes "USERINFO_ENDPOINT") "")
    ∷ ("sso_oidc_client_id", get_env env (prefix ++ codes "CLIENT_ID") "")
    ∷ ("sso_oidc_client_secret", get_env env (prefix ++ codes "CLIENT_SECRET") "")
    ∷ ("sso_oidc_scopes", get_env env (prefix ++ codes "SCOPES") "openid profile email")
    ∷ []

unfoldable pub legacy_sso_defaults : (Text → Option Text) → Dict String Text
legacy_sso_defaults env =
    let provider_id = first_item (split 44 (strip (get_env env (codes "SSO_PROVIDERS") ""))) in
    let parts = provider_parts provider_id in
    let provider_type = one_of sso_provider_types parts.0 "oidc" in
    let provider_name = or_text parts.1 "casdoor" in
    let prefix = codes "SSO_" ++ (upper provider_type ++ 95 ∷ (upper provider_name ++ 95 ∷ [])) in
    ("sso_provider_enabled", if is_empty provider_id then codes "0" else codes "1")
    ∷ ("sso_provider_type", provider_type)
    ∷ ("sso_provider_name", provider_name)
    ∷ ("sso_provider_display_name", get_env env (prefix ++ codes "DISPLAY_NAME") "统一认证")
    ∷ ("sso_callback_base_url", get_env env (codes "SSO_CALLBACK_BASE_URL") "")
    ∷ ("sso_casdoor_admin_owner", get_env env (codes "CASDOOR_ADMIN_OWNER") "built-in")
    ∷ (if text_eq provider_type (codes "cas")
        then cas_settings env prefix
        else oidc_settings env prefix)

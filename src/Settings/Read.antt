-- ===== src/Settings/Read.antt =====
-- `get_platform_settings` and `get_agent_collection_config`. A text that `int` cannot read raises ValueError, which the
-- server answers with 500.
use server_vps.Prelude.{
  map, ℕ, zero, suc, String, str_eq, Option, none, some, List, [], ◌∷◌, ◌++◌, Text, strip, split,
  if◌then◌else◌, exists, ◌==◌, Dict, lookup, ℤ, pos, negsuc, at_least, parse_int, Result, ok,
  or_raise, ◌>>=◌,
}
use server_vps.Settings.{
  PlatformSettings, setting_to_bool, or_text, one_of, group_names, sso_provider_types,
  storage_modes, platform_setting_defaults, legacy_sso_defaults,
}

-- raw[key]: the row of the table, or what the environment gives, or the default.
unfoldable pub raw_setting : (Text → Option Text) → Dict String Text → String → Text
raw_setting env table key = elim (lookup str_eq key table) [
  | some value ↦ value
  | none ↦ elim (lookup str_eq key (legacy_sso_defaults env)) [
    | some value ↦ value
    | none ↦ elim (lookup str_eq key platform_setting_defaults) [ some value ↦ value | none ↦ [] ]
  ]
]

-- if parsed > 0 and parsed not in canary_ids: canary_ids.append(parsed); a ValueError is passed over
unfoldable pub add_canary_id : List ℕ → Option ℤ → List ℕ
add_canary_id ids none = ids
add_canary_id ids (some (negsuc n)) = ids
add_canary_id ids (some (pos zero)) = ids
add_canary_id ids (some (pos (suc n))) =
    if exists (λ id. id == suc n) ids then ids else ids ++ suc n ∷ []

unfoldable pub canary_ids : List ℕ → List Text → List ℕ
canary_ids ids [] = ids
canary_ids ids (value ∷ values) = canary_ids (add_canary_id ids (parse_int value)) values

-- max(low, int(raw[key] or "default"))
unfoldable pub int_setting : (String → Text) → ℕ → String → String → Result ℕ
int_setting raw low key default = do
  i ← or_raise (parse_int (or_text (raw key) default)) 500
  ok (at_least low i)

unfoldable pub cas_version : (String → Text) → Result ℤ
cas_version raw = or_raise (parse_int (or_text (raw "sso_cas_version") "3")) 500

-- The dictionary that `get_platform_settings` returns, from `raw`.
unfoldable pub settings_of : (String → Text) → Result PlatformSettings
settings_of raw = do
  transfer_bandwidth_limit_mbps' ← int_setting raw 0 "transfer_bandwidth_limit_mbps" "0"
  nfs_idmap_base' ← int_setting raw 65536 "nfs_idmap_base" "1000000"
  workspace_default_gb' ← int_setting raw 1 "workspace_default_gb" "100"
  workspace_retention_days' ← int_setting raw 1 "workspace_retention_days" "30"
  agent_metrics_interval_seconds' ← int_setting raw 1 "agent_metrics_interval_seconds" "2"
  agent_heartbeat_interval_seconds' ← int_setting raw 5 "agent_heartbeat_interval_seconds" "15"
  agent_container_interval_seconds' ← int_setting raw 5 "agent_container_interval_seconds" "15"
  agent_storage_interval_seconds' ← int_setting raw 30 "agent_storage_interval_seconds" "60"
  agent_inventory_interval_seconds' ← int_setting raw 60 "agent_inventory_interval_seconds" "300"
  agent_task_poll_interval_seconds' ← int_setting raw 1 "agent_task_poll_interval_seconds" "5"
  sso_cas_version' ← cas_version raw
  ok (record {
    local_login_enabled = setting_to_bool (raw "local_login_enabled");
    platform_registration_enabled = setting_to_bool (raw "platform_registration_enabled");
    platform_registration_auto_enable = setting_to_bool (raw "platform_registration_auto_enable");
    platform_registration_default_group =
        one_of group_names (raw "platform_registration_default_group") "member";
    sso_registration_enabled = setting_to_bool (raw "sso_registration_enabled");
    sso_auto_create_users = setting_to_bool (raw "sso_auto_create_users");
    sso_auto_enable_new_users = setting_to_bool (raw "sso_auto_enable_new_users");
    sso_default_group = one_of group_names (raw "sso_default_group") "member";
    platform_timezone = or_text (raw "platform_timezone") "Asia/Shanghai";
    transfer_bandwidth_limit_mbps = transfer_bandwidth_limit_mbps';
    shared_storage_mode = one_of storage_modes (raw "shared_storage_mode") "disabled";
    shared_storage_canary_user_ids =
        map pos (canary_ids [] (split 44 (raw "shared_storage_canary_user_ids")));
    nfs_server = strip (raw "nfs_server");
    nfs_users_export = strip (raw "nfs_users_export");
    nfs_datasets_export = strip (raw "nfs_datasets_export");
    nfs_models_export = strip (raw "nfs_models_export");
    nfs_mount_options = strip (raw "nfs_mount_options");
    nfs_sentinel = or_text (strip (raw "nfs_sentinel")) ".server-vps-nfs";
    nfs_sentinel_signature = strip (raw "nfs_sentinel_signature");
    nfs_idmap_base = nfs_idmap_base';
    truenas_nfs_auto_share = setting_to_bool (raw "truenas_nfs_auto_share");
    workspace_default_gb = workspace_default_gb';
    workspace_retention_days = workspace_retention_days';
    agent_metrics_interval_seconds = agent_metrics_interval_seconds';
    agent_heartbeat_interval_seconds = agent_heartbeat_interval_seconds';
    agent_container_interval_seconds = agent_container_interval_seconds';
    agent_storage_interval_seconds = agent_storage_interval_seconds';
    agent_inventory_interval_seconds = agent_inventory_interval_seconds';
    agent_task_poll_interval_seconds = agent_task_poll_interval_seconds';
    webhook_enabled = setting_to_bool (raw "webhook_enabled");
    webhook_url = raw "webhook_url";
    webhook_secret = raw "webhook_secret";
    sso_provider_enabled = setting_to_bool (raw "sso_provider_enabled");
    sso_provider_type = one_of sso_provider_types (raw "sso_provider_type") "oidc";
    sso_provider_name = or_text (raw "sso_provider_name") "casdoor";
    sso_provider_display_name = raw "sso_provider_display_name";
    sso_callback_base_url = raw "sso_callback_base_url";
    sso_cas_server_url = raw "sso_cas_server_url";
    sso_cas_version = sso_cas_version';
    sso_oidc_issuer = raw "sso_oidc_issuer";
    sso_oidc_authorization_endpoint = raw "sso_oidc_authorization_endpoint";
    sso_oidc_token_endpoint = raw "sso_oidc_token_endpoint";
    sso_oidc_userinfo_endpoint = raw "sso_oidc_userinfo_endpoint";
    sso_oidc_client_id = raw "sso_oidc_client_id";
    sso_oidc_client_secret = raw "sso_oidc_client_secret";
    sso_oidc_scopes = or_text (raw "sso_oidc_scopes") "openid profile email";
    sso_casdoor_admin_owner = or_text (raw "sso_casdoor_admin_owner") "built-in";
  })

unfoldable pub get_platform_settings :
    (Text → Option Text) → Dict String Text → Result PlatformSettings
get_platform_settings env table = settings_of (raw_setting env table)

pub record CollectionConfig : Type 0 where
  pub metrics_interval_seconds : ℕ
  pub heartbeat_interval_seconds : ℕ
  pub container_interval_seconds : ℕ
  pub storage_interval_seconds : ℕ
  pub inventory_interval_seconds : ℕ
  pub task_poll_interval_seconds : ℕ

unfoldable pub get_agent_collection_config :
    (Text → Option Text) → Dict String Text → Result CollectionConfig
get_agent_collection_config env table = do
  settings ← get_platform_settings env table
  ok (record {
    metrics_interval_seconds = settings.agent_metrics_interval_seconds;
    heartbeat_interval_seconds = settings.agent_heartbeat_interval_seconds;
    container_interval_seconds = settings.agent_container_interval_seconds;
    storage_interval_seconds = settings.agent_storage_interval_seconds;
    inventory_interval_seconds = settings.agent_inventory_interval_seconds;
    task_poll_interval_seconds = settings.agent_task_poll_interval_seconds;
  })

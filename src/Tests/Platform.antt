-- ===== src/Tests/Platform.antt =====
-- The settings of the platform.
use server_vps.Prelude.{
  negsuc, ℕ, String, ◌≤◌, ◌≡◌, refl, Bool, true, false, Option, none, some, List, [], ◌∷◌, Text,
  codes, pos, Dict, ok,
}
use server_vps.Database.{Db}
use server_vps.Settings.{PlatformSettings}
use server_vps.Settings.Read.{CollectionConfig, get_agent_collection_config}
use server_vps.Settings.Update.{platform_settings_put, platform_settings_get}
use server_vps.Settings.Saved.{saved}
use server_vps.Settings.RoundTrip.{platform_settings_put-get}
use server_vps.Settings.Intervals.{get_agent_collection_config-bounds}
use server_vps.Tests.Data.{root, database}

abbrev settings : PlatformSettings
settings = record {
  local_login_enabled = true;
  platform_registration_enabled = false;
  platform_registration_auto_enable = false;
  platform_registration_default_group = codes "member";
  sso_registration_enabled = true;
  sso_auto_create_users = true;
  sso_auto_enable_new_users = false;
  sso_default_group = codes "member";
  platform_timezone = codes "Asia/Shanghai";
  transfer_bandwidth_limit_mbps = 0;
  shared_storage_mode = codes "disabled";
  shared_storage_canary_user_ids = pos 3 ∷ pos 0 ∷ pos 3 ∷ negsuc 4 ∷ [];
  nfs_server = [];
  nfs_users_export = [];
  nfs_datasets_export = [];
  nfs_models_export = [];
  nfs_mount_options = codes "hard,_netdev,noatime,vers=4.1,proto=tcp";
  nfs_sentinel = codes ".server-vps-nfs";
  nfs_sentinel_signature = [];
  nfs_idmap_base = 1000000;
  truenas_nfs_auto_share = false;
  workspace_default_gb = 100;
  workspace_retention_days = 30;
  agent_metrics_interval_seconds = 2;
  agent_heartbeat_interval_seconds = 15;
  agent_container_interval_seconds = 15;
  agent_storage_interval_seconds = 60;
  agent_inventory_interval_seconds = 300;
  agent_task_poll_interval_seconds = 5;
  webhook_enabled = false;
  webhook_url = codes " http://hook ";
  webhook_secret = [];
  sso_provider_enabled = false;
  sso_provider_type = codes "oidc";
  sso_provider_name = codes "casdoor";
  sso_provider_display_name = codes "统一认证";
  sso_callback_base_url = [];
  sso_cas_server_url = [];
  sso_cas_version = pos 3;
  sso_oidc_issuer = [];
  sso_oidc_authorization_endpoint = [];
  sso_oidc_token_endpoint = [];
  sso_oidc_userinfo_endpoint = [];
  sso_oidc_client_id = [];
  sso_oidc_client_secret = [];
  sso_oidc_scopes = codes "openid profile email";
  sso_casdoor_admin_owner = codes "built-in";
}

abbrev no_env : Text → Option Text
no_env key = none

abbrev any_zone : Text → Bool
any_zone zone = true

platform_settings_put-get_example :
    (d' : Db) × (platform_settings_put any_zone no_env (some root) 9 settings (database "running")
      ≡ ok (saved settings, d'))
    × (platform_settings_get any_zone no_env (some root) d' ≡ ok (saved settings, d'))
unfolding server_vps.Auth.is_admin_user server_vps.Auth.is_admin_group
    server_vps.Settings.Checks.check_settings server_vps.Settings.Checks.is_provider_name
    server_vps.Settings.Checks.fullmatch server_vps.Settings.Checks.is_lower_letter
    server_vps.Settings.Checks.check_storage server_vps.Settings.Checks.has_soft_option
    server_vps.Settings.Checks.lacks_nfs_options server_vps.Settings.Checks.has_option
    server_vps.Settings.Checks.is_sentinel server_vps.Settings.Checks.is_sentinel_rest
    server_vps.Settings.Checks.check_interval server_vps.Settings.Checks.check_intervals
    server_vps.Settings.Checks.check_sso server_vps.Settings.Checks.check_workspaces
    server_vps.Settings.Checks.is_alphanumeric server_vps.Settings.Checks.is_signature
    server_vps.Settings.Checks.lacks_endpoints server_vps.Prelude.exists server_vps.Prelude.text_eq
    server_vps.Prelude.split server_vps.Prelude.starts_with server_vps.Prelude.lower
    server_vps.Prelude.strip server_vps.Prelude.is_space server_vps.Prelude.lstrip
    server_vps.Settings.or_text
platform_settings_put-get_example =
    platform_settings_put-get any_zone no_env root 9 settings (database "running") refl refl

abbrev hasty : Dict String Text
hasty = ("agent_heartbeat_interval_seconds", codes "-1") ∷ []

abbrev periods : CollectionConfig
periods = record {
  metrics_interval_seconds = 2;
  heartbeat_interval_seconds = 5;
  container_interval_seconds = 15;
  storage_interval_seconds = 60;
  inventory_interval_seconds = 300;
  task_poll_interval_seconds = 5;
}

get_agent_collection_config-bounds_example :
    (1 ≤ periods.metrics_interval_seconds)
    × (5 ≤ periods.heartbeat_interval_seconds)
    × (5 ≤ periods.container_interval_seconds)
    × (30 ≤ periods.storage_interval_seconds)
    × (60 ≤ periods.inventory_interval_seconds)
    × (1 ≤ periods.task_poll_interval_seconds)
unfolding get_agent_collection_config server_vps.Settings.Read.get_platform_settings
    server_vps.Settings.Read.settings_of server_vps.Settings.Read.int_setting
    server_vps.Settings.Read.raw_setting server_vps.Settings.Read.add_canary_id
    server_vps.Settings.Read.canary_ids server_vps.Settings.Read.cas_version
    server_vps.Prelude.parse_int server_vps.Prelude.signed server_vps.Prelude.strip
    server_vps.Prelude.lookup server_vps.Prelude.text_eq server_vps.Prelude.exists
    server_vps.Prelude.split_first server_vps.Prelude.at_least server_vps.Prelude.is_digit
    server_vps.Prelude.negated server_vps.Prelude.scan server_vps.Prelude.split
    server_vps.Prelude.upper server_vps.Prelude.is_space server_vps.Prelude.lower
    server_vps.Prelude.lstrip server_vps.Settings.or_text server_vps.Settings.legacy_sso_defaults
    server_vps.Settings.one_of server_vps.Settings.provider_parts server_vps.Settings.first_item
    server_vps.Settings.cas_settings server_vps.Settings.get_env server_vps.Settings.oidc_settings
    server_vps.Settings.platform_setting_defaults server_vps.Settings.setting_to_bool
get_agent_collection_config-bounds_example =
    get_agent_collection_config-bounds no_env hasty periods refl

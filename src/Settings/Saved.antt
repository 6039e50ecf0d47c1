-- ===== src/Settings/Saved.antt =====
-- What the settings of a request become once they are stored.
use server_vps.Prelude.{pos, map, strip, rstrip_of}
use server_vps.Scheduler.Select.{distinct_ids}
use server_vps.Settings.{
  naturals, PlatformSettings, or_text, one_of, group_names, sso_provider_types, storage_modes,
}
use server_vps.Settings.Write.{or_three}

-- White space around texts goes, with the slashes at the end of three addresses, and some empty texts become their
-- defaults; each positive id of a canary user stays once; the rest is as it was.
unfoldable pub saved : PlatformSettings → PlatformSettings
saved s = record {
  local_login_enabled = s.local_login_enabled;
  platform_registration_enabled = s.platform_registration_enabled;
  platform_registration_auto_enable = s.platform_registration_auto_enable;
  platform_registration_default_group =
      one_of group_names s.platform_registration_default_group "member";
  sso_registration_enabled = s.sso_registration_enabled;
  sso_auto_create_users = s.sso_auto_create_users;
  sso_auto_enable_new_users = s.sso_auto_enable_new_users;
  sso_default_group = one_of group_names s.sso_default_group "member";
  platform_timezone = or_text (strip s.platform_timezone) "Asia/Shanghai";
  transfer_bandwidth_limit_mbps = s.transfer_bandwidth_limit_mbps;
  shared_storage_mode = one_of storage_modes s.shared_storage_mode "disabled";
  shared_storage_canary_user_ids =
      map pos (distinct_ids (naturals s.shared_storage_canary_user_ids));
  nfs_server = strip s.nfs_server;
  nfs_users_export = strip s.nfs_users_export;
  nfs_datasets_export = strip s.nfs_datasets_export;
  nfs_models_export = strip s.nfs_models_export;
  nfs_mount_options = strip s.nfs_mount_options;
  nfs_sentinel = or_text (strip s.nfs_sentinel) ".server-vps-nfs";
  nfs_sentinel_signature = strip s.nfs_sentinel_signature;
  nfs_idmap_base = s.nfs_idmap_base;
  truenas_nfs_auto_share = s.truenas_nfs_auto_share;
  workspace_default_gb = s.workspace_default_gb;
  workspace_retention_days = s.workspace_retention_days;
  agent_metrics_interval_seconds = s.agent_metrics_interval_seconds;
  agent_heartbeat_interval_seconds = s.agent_heartbeat_interval_seconds;
  agent_container_interval_seconds = s.agent_container_interval_seconds;
  agent_storage_interval_seconds = s.agent_storage_interval_seconds;
  agent_inventory_interval_seconds = s.agent_inventory_interval_seconds;
  agent_task_poll_interval_seconds = s.agent_task_poll_interval_seconds;
  webhook_enabled = s.webhook_enabled;
  webhook_url = strip s.webhook_url;
  webhook_secret = strip s.webhook_secret;
  sso_provider_enabled = s.sso_provider_enabled;
  sso_provider_type = one_of sso_provider_types s.sso_provider_type "oidc";
  sso_provider_name = or_text (strip s.sso_provider_name) "casdoor";
  sso_provider_display_name = or_text (strip s.sso_provider_display_name) "统一认证";
  sso_callback_base_url = rstrip_of 47 (strip s.sso_callback_base_url);
  sso_cas_server_url = rstrip_of 47 (strip s.sso_cas_server_url);
  sso_cas_version = or_three s.sso_cas_version;
  sso_oidc_issuer = rstrip_of 47 (strip s.sso_oidc_issuer);
  sso_oidc_authorization_endpoint = strip s.sso_oidc_authorization_endpoint;
  sso_oidc_token_endpoint = strip s.sso_oidc_token_endpoint;
  sso_oidc_userinfo_endpoint = strip s.sso_oidc_userinfo_endpoint;
  sso_oidc_client_id = strip s.sso_oidc_client_id;
  sso_oidc_client_secret = strip s.sso_oidc_client_secret;
  sso_oidc_scopes = or_text (strip s.sso_oidc_scopes) "openid profile email";
  sso_casdoor_admin_owner = or_text (strip s.sso_casdoor_admin_owner) "built-in";
}

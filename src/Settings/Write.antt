-- ===== src/Settings/Write.antt =====
-- `platform_settings_to_rows`, and the statements that store its rows.
use Prim.Native.Nat.{max}
use server_vps.Prelude.{
  ℕ, zero, suc, String, str_eq, List, [], ◌∷◌, Text, strip, join, rstrip_of, if◌then◌else◌, ◌==◌,
  Dict, insert, ℤ, pos, negsuc, print, print_int,
}
use server_vps.Settings.{
  naturals, PlatformSettings, bool_to_setting, or_text, one_of, group_names, sso_provider_types,
  storage_modes,
}

-- str(int(item)) for the items above 0
unfoldable pub print_ids : List ℕ → List Text
print_ids [] = []
print_ids (id ∷ ids) = let rest = print_ids ids in if id == 0 then rest else print id ∷ rest

-- settings["sso_cas_version"] or 3
unfoldable pub or_three : ℤ → ℤ
or_three (pos zero) = pos 3
or_three (pos (suc n)) = pos (suc n)
or_three (negsuc n) = negsuc n

unfoldable pub platform_settings_to_rows : PlatformSettings → Dict String Text
platform_settings_to_rows s =
    ("local_login_enabled", bool_to_setting s.local_login_enabled)
    ∷ ("platform_registration_enabled", bool_to_setting s.platform_registration_enabled)
    ∷ ("platform_registration_auto_enable", bool_to_setting s.platform_registration_auto_enable)
    ∷ (
      "platform_registration_default_group",
      one_of group_names s.platform_registration_default_group "member",
    )
    ∷ ("sso_registration_enabled", bool_to_setting s.sso_registration_enabled)
    ∷ ("sso_auto_create_users", bool_to_setting s.sso_auto_create_users)
    ∷ ("sso_auto_enable_new_users", bool_to_setting s.sso_auto_enable_new_users)
    ∷ ("sso_default_group", one_of group_names s.sso_default_group "member")
    ∷ ("platform_timezone", or_text (strip s.platform_timezone) "Asia/Shanghai")
    ∷ ("transfer_bandwidth_limit_mbps", print (max 0 s.transfer_bandwidth_limit_mbps))
    ∷ ("shared_storage_mode", one_of storage_modes s.shared_storage_mode "disabled")
    ∷ (
      "shared_storage_canary_user_ids",
      join 44 (print_ids (naturals s.shared_storage_canary_user_ids)),
    )
    ∷ ("nfs_server", strip s.nfs_server)
    ∷ ("nfs_users_export", strip s.nfs_users_export)
    ∷ ("nfs_datasets_export", strip s.nfs_datasets_export)
    ∷ ("nfs_models_export", strip s.nfs_models_export)
    ∷ ("nfs_mount_options", strip s.nfs_mount_options)
    ∷ ("nfs_sentinel", or_text (strip s.nfs_sentinel) ".server-vps-nfs")
    ∷ ("nfs_sentinel_signature", strip s.nfs_sentinel_signature)
    ∷ ("nfs_idmap_base", print (max 65536 s.nfs_idmap_base))
    ∷ ("truenas_nfs_auto_share", bool_to_setting s.truenas_nfs_auto_share)
    ∷ ("workspace_default_gb", print (max 1 s.workspace_default_gb))
    ∷ ("workspace_retention_days", print (max 1 s.workspace_retention_days))
    ∷ ("agent_metrics_interval_seconds", print s.agent_metrics_interval_seconds)
    ∷ ("agent_heartbeat_interval_seconds", print s.agent_heartbeat_interval_seconds)
    ∷ ("agent_container_interval_seconds", print s.agent_container_interval_seconds)
    ∷ ("agent_storage_interval_seconds", print s.agent_storage_interval_seconds)
    ∷ ("agent_inventory_interval_seconds", print s.agent_inventory_interval_seconds)
    ∷ ("agent_task_poll_interval_seconds", print s.agent_task_poll_interval_seconds)
    ∷ ("webhook_enabled", bool_to_setting s.webhook_enabled)
    ∷ ("webhook_url", strip s.webhook_url)
    ∷ ("webhook_secret", strip s.webhook_secret)
    ∷ ("sso_provider_enabled", bool_to_setting s.sso_provider_enabled)
    ∷ ("sso_provider_type", one_of sso_provider_types s.sso_provider_type "oidc")
    ∷ ("sso_provider_name", or_text (strip s.sso_provider_name) "casdoor")
    ∷ ("sso_provider_display_name", or_text (strip s.sso_provider_display_name) "统一认证")
    ∷ ("sso_callback_base_url", rstrip_of 47 (strip s.sso_callback_base_url))
    ∷ ("sso_cas_server_url", rstrip_of 47 (strip s.sso_cas_server_url))
    ∷ ("sso_cas_version", print_int (or_three s.sso_cas_version))
    ∷ ("sso_oidc_issuer", rstrip_of 47 (strip s.sso_oidc_issuer))
    ∷ ("sso_oidc_authorization_endpoint", strip s.sso_oidc_authorization_endpoint)
    ∷ ("sso_oidc_token_endpoint", strip s.sso_oidc_token_endpoint)
    ∷ ("sso_oidc_userinfo_endpoint", strip s.sso_oidc_userinfo_endpoint)
    ∷ ("sso_oidc_client_id", strip s.sso_oidc_client_id)
    ∷ ("sso_oidc_client_secret", strip s.sso_oidc_client_secret)
    ∷ ("sso_oidc_scopes", or_text (strip s.sso_oidc_scopes) "openid profile email")
    ∷ ("sso_casdoor_admin_owner", or_text (strip s.sso_casdoor_admin_owner) "built-in")
    ∷ []

-- INSERT INTO system_settings ... ON CONFLICT (key) DO UPDATE, for each row
unfoldable pub store_rows : Dict String Text → Dict String Text → Dict String Text
store_rows [] table = table
store_rows ((key, value) ∷ rows) table = store_rows rows (insert str_eq key value table)

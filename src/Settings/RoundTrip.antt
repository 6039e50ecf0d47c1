-- ===== src/Settings/RoundTrip.antt =====
-- Reading the settings back from the table after a request has stored them.
use server_vps.Prelude.{
  pos, map, ℕ, ◌≤◌, String, str_eq, ◌≡◌, refl, ap, ◌∙◌, Bool, true, Option, none, some, [], ◌∷◌,
  ◌++◌, Text, arith, strip, rstrip_of, strip-idempotent, eq_iff, if◌then◌else◌, Dict, lookup,
  insert, lookup-insert, print, ok,
}
use server_vps.Settings.{
  naturals, PlatformSettings, or_text, group_names, sso_provider_types, storage_modes,
}
use server_vps.Settings.Read.{raw_setting, settings_of, get_platform_settings}
use server_vps.Settings.Write.{or_three, platform_settings_to_rows, store_rows}
use server_vps.Database.{Db, User}
use server_vps.Auth.{require_admin, require_user, is_admin_user}
use server_vps.Settings.Checks.{
  check_settings, check_storage, check_workspaces, check_intervals, check_interval,
}
use server_vps.Settings.Update.{platform_settings_put, platform_settings_get}
use server_vps.Settings.Saved.{saved}
use server_vps.Settings.Fields.{
  setting_to_bool-bool_to_setting, or_text-idempotent, or_text-strip, one_of-idempotent, max_of,
  int_setting-print, cas_version-print_int,
}
use server_vps.Settings.Canary.{canary_ids-print_ids}

-- The lower bounds of the numbers, which the checks of a request see to.
pub record InBounds (s : PlatformSettings) : Type 0 where
  pub transfer_bandwidth_limit_mbps : 0 ≤ s.transfer_bandwidth_limit_mbps
  pub nfs_idmap_base : 65536 ≤ s.nfs_idmap_base
  pub workspace_default_gb : 1 ≤ s.workspace_default_gb
  pub workspace_retention_days : 1 ≤ s.workspace_retention_days
  pub agent_metrics_interval_seconds : 1 ≤ s.agent_metrics_interval_seconds
  pub agent_heartbeat_interval_seconds : 5 ≤ s.agent_heartbeat_interval_seconds
  pub agent_container_interval_seconds : 5 ≤ s.agent_container_interval_seconds
  pub agent_storage_interval_seconds : 30 ≤ s.agent_storage_interval_seconds
  pub agent_inventory_interval_seconds : 60 ≤ s.agent_inventory_interval_seconds
  pub agent_task_poll_interval_seconds : 1 ≤ s.agent_task_poll_interval_seconds

-- The table after the rows are stored, as a function of the key.
abbrev written : Dict String Text → (String → Option Text) → String → Option Text
written [] base key = base key
written ((k, value) ∷ rows) base key =
    written rows (λ j. if str_eq j k then some value else base j) key

lookup-store_rows :
    (rows table : Dict String Text) (key : String)
    → lookup str_eq key (store_rows rows table) ≡ written rows (λ j. lookup str_eq j table) key
unfolding store_rows
lookup-store_rows [] table key = refl
lookup-store_rows ((k, value) ∷ rows) table key =
    lookup-store_rows rows (insert str_eq k value table) key
    ∙ ap (λ base. written rows base key) (λ t j. lookup-insert str_eq eq_iff j k value table t)

module _ (env : Text → Option Text) (table : Dict String Text) (s : PlatformSettings) where
  -- raw[key] after the rows of `s` are stored.
  abbrev raw_after : String → Text
  raw_after key = elim (written (platform_settings_to_rows s) (λ j. lookup str_eq j table) key) [
    | some value ↦ value
    | none ↦ raw_setting env [] key
  ]

  raw_setting-store_rows :
      (key : String)
      → raw_setting env (store_rows (platform_settings_to_rows s) table) key ≡ raw_after key
  unfolding raw_setting lookup
  raw_setting-store_rows key =
      ap
        (λ (found : Option Text). elim found [ some value ↦ value | none ↦ raw_setting env [] key ])
        (lookup-store_rows (platform_settings_to_rows s) table key)

  settings_of-raw_after : InBounds s → settings_of raw_after ≡ ok (saved s)
  unfolding settings_of saved platform_settings_to_rows
  settings_of-raw_after h =
      rw
        (
          int_setting-print raw_after 0 "transfer_bandwidth_limit_mbps" "0"
              s.transfer_bandwidth_limit_mbps
              (ap print (max_of 0 s.transfer_bandwidth_limit_mbps h.transfer_bandwidth_limit_mbps))
              h.transfer_bandwidth_limit_mbps,
          int_setting-print raw_after 65536 "nfs_idmap_base" "1000000" s.nfs_idmap_base
              (ap print (max_of 65536 s.nfs_idmap_base h.nfs_idmap_base)) h.nfs_idmap_base,
          int_setting-print raw_after 1 "workspace_default_gb" "100" s.workspace_default_gb
              (ap print (max_of 1 s.workspace_default_gb h.workspace_default_gb))
              h.workspace_default_gb,
          int_setting-print raw_after 1 "workspace_retention_days" "30" s.workspace_retention_days
              (ap print (max_of 1 s.workspace_retention_days h.workspace_retention_days))
              h.workspace_retention_days,
          int_setting-print raw_after 1 "agent_metrics_interval_seconds" "2"
              s.agent_metrics_interval_seconds (refl) h.agent_metrics_interval_seconds,
          int_setting-print raw_after 5 "agent_heartbeat_interval_seconds" "15"
              s.agent_heartbeat_interval_seconds (refl) h.agent_heartbeat_interval_seconds,
          int_setting-print raw_after 5 "agent_container_interval_seconds" "15"
              s.agent_container_interval_seconds (refl) h.agent_container_interval_seconds,
          int_setting-print raw_after 30 "agent_storage_interval_seconds" "60"
              s.agent_storage_interval_seconds (refl) h.agent_storage_interval_seconds,
          int_setting-print raw_after 60 "agent_inventory_interval_seconds" "300"
              s.agent_inventory_interval_seconds (refl) h.agent_inventory_interval_seconds,
          int_setting-print raw_after 1 "agent_task_poll_interval_seconds" "5"
              s.agent_task_poll_interval_seconds (refl) h.agent_task_poll_interval_seconds,
          cas_version-print_int raw_after (or_three s.sso_cas_version) refl,
        )
        (λ t. ok (record {
          local_login_enabled = setting_to_bool-bool_to_setting s.local_login_enabled t;
          platform_registration_enabled =
              setting_to_bool-bool_to_setting s.platform_registration_enabled t;
          platform_registration_auto_enable =
              setting_to_bool-bool_to_setting s.platform_registration_auto_enable t;
          platform_registration_default_group =
              one_of-idempotent group_names s.platform_registration_default_group "member" t;
          sso_registration_enabled = setting_to_bool-bool_to_setting s.sso_registration_enabled t;
          sso_auto_create_users = setting_to_bool-bool_to_setting s.sso_auto_create_users t;
          sso_auto_enable_new_users = setting_to_bool-bool_to_setting s.sso_auto_enable_new_users t;
          sso_default_group = one_of-idempotent group_names s.sso_default_group "member" t;
          platform_timezone = or_text-idempotent (strip s.platform_timezone) "Asia/Shanghai" t;
          transfer_bandwidth_limit_mbps = s.transfer_bandwidth_limit_mbps;
          shared_storage_mode = one_of-idempotent storage_modes s.shared_storage_mode "disabled" t;
          shared_storage_canary_user_ids =
              map pos (canary_ids-print_ids (naturals s.shared_storage_canary_user_ids) t);
          nfs_server = strip-idempotent s.nfs_server t;
          nfs_users_export = strip-idempotent s.nfs_users_export t;
          nfs_datasets_export = strip-idempotent s.nfs_datasets_export t;
          nfs_models_export = strip-idempotent s.nfs_models_export t;
          nfs_mount_options = strip-idempotent s.nfs_mount_options t;
          nfs_sentinel = or_text-strip s.nfs_sentinel t;
          nfs_sentinel_signature = strip-idempotent s.nfs_sentinel_signature t;
          nfs_idmap_base = s.nfs_idmap_base;
          truenas_nfs_auto_share = setting_to_bool-bool_to_setting s.truenas_nfs_auto_share t;
          workspace_default_gb = s.workspace_default_gb;
          workspace_retention_days = s.workspace_retention_days;
          agent_metrics_interval_seconds = s.agent_metrics_interval_seconds;
          agent_heartbeat_interval_seconds = s.agent_heartbeat_interval_seconds;
          agent_container_interval_seconds = s.agent_container_interval_seconds;
          agent_storage_interval_seconds = s.agent_storage_interval_seconds;
          agent_inventory_interval_seconds = s.agent_inventory_interval_seconds;
          agent_task_poll_interval_seconds = s.agent_task_poll_interval_seconds;
          webhook_enabled = setting_to_bool-bool_to_setting s.webhook_enabled t;
          webhook_url = strip s.webhook_url;
          webhook_secret = strip s.webhook_secret;
          sso_provider_enabled = setting_to_bool-bool_to_setting s.sso_provider_enabled t;
          sso_provider_type = one_of-idempotent sso_provider_types s.sso_provider_type "oidc" t;
          sso_provider_name = or_text-idempotent (strip s.sso_provider_name) "casdoor" t;
          sso_provider_display_name = or_text (strip s.sso_provider_display_name) "统一认证";
          sso_callback_base_url = rstrip_of 47 (strip s.sso_callback_base_url);
          sso_cas_server_url = rstrip_of 47 (strip s.sso_cas_server_url);
          sso_cas_version = or_three s.sso_cas_version;
          sso_oidc_issuer = rstrip_of 47 (strip s.sso_oidc_issuer);
          sso_oidc_authorization_endpoint = strip s.sso_oidc_authorization_endpoint;
          sso_oidc_token_endpoint = strip s.sso_oidc_token_endpoint;
          sso_oidc_userinfo_endpoint = strip s.sso_oidc_userinfo_endpoint;
          sso_oidc_client_id = strip s.sso_oidc_client_id;
          sso_oidc_client_secret = strip s.sso_oidc_client_secret;
          sso_oidc_scopes = or_text-idempotent (strip s.sso_oidc_scopes) "openid profile email" t;
          sso_casdoor_admin_owner =
              or_text-idempotent (strip s.sso_casdoor_admin_owner) "built-in" t;
        }))

check_settings-InBounds :
    (known_zone : Text → Bool) (s : PlatformSettings)
    → check_settings known_zone s ≡ ok tt
    → InBounds s
unfolding check_settings check_storage check_workspaces check_intervals check_interval
check_settings-InBounds known_zone s h = record {
  transfer_bandwidth_limit_mbps = omega arith;
  nfs_idmap_base = ground (arith, h);
  workspace_default_gb = ground (arith, h);
  workspace_retention_days = ground (arith, h);
  agent_metrics_interval_seconds = ground (arith, h);
  agent_heartbeat_interval_seconds = ground (arith, h);
  agent_container_interval_seconds = ground (arith, h);
  agent_storage_interval_seconds = ground (arith, h);
  agent_inventory_interval_seconds = ground (arith, h);
  agent_task_poll_interval_seconds = ground (arith, h);
}

-- The database after a request that is accepted.
abbrev stored : User → ℕ → PlatformSettings → Db → Db
stored user ts s d = record d {
  system_settings = store_rows (platform_settings_to_rows s) d.system_settings;
  audit_logs =
      d.audit_logs
      ++ record {
        actor = user.username;
        action = "update";
        target_kind = "system-settings:platform";
        target_id = 0;
        target_name = [];
        created_at = ts;
      }
        ∷ [];
}

-- An administrator's request that passes the checks succeeds, answers with `saved` of its settings, and a later look at
-- the settings answers the same.
pub platform_settings_put-get :
    (known_zone : Text → Bool) (env : Text → Option Text) (user : User) (ts : ℕ)
    (s : PlatformSettings) (d : Db)
    → is_admin_user (some user) ≡ true
    → check_settings known_zone s ≡ ok tt
    → (d' : Db) × (platform_settings_put known_zone env (some user) ts s d ≡ ok (saved s, d'))
      × (platform_settings_get known_zone env (some user) d' ≡ ok (saved s, d'))
unfolding platform_settings_put platform_settings_get require_admin require_user
    get_platform_settings
platform_settings_put-get known_zone env user ts s d admin checked =
    let read : get_platform_settings env
          (store_rows (platform_settings_to_rows s) d.system_settings)
        ≡ ok (saved s) =
      ap settings_of (λ t key. raw_setting-store_rows env d.system_settings s key t)
      ∙ settings_of-raw_after env d.system_settings s
          (check_settings-InBounds known_zone s checked) in
    (stored user ts s d, ground (arith, admin, checked, read), ground (arith, admin, checked, read))

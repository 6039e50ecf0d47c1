-- ===== src/Settings/Update.antt =====
-- `platform_settings_put` and `platform_settings_get` of backend/app/settings/routes.py.
use server_vps.Prelude.{ℕ, Bool, Option, Text}
use server_vps.Database.{User, Tx, query, modify, lift, audit, ◌>>=◌, ◌>>◌}
use server_vps.Auth.{require_admin}
use server_vps.Settings.{PlatformSettings}
use server_vps.Settings.Read.{get_platform_settings}
use server_vps.Settings.Write.{platform_settings_to_rows, store_rows}
use server_vps.Settings.Checks.{check_settings}

module _ (known_zone : Text → Bool) (env : Text → Option Text) (request : Option User) where
  unfoldable pub platform_settings_get : Tx PlatformSettings
  platform_settings_get = do
    actor ← require_admin request
    table ← query (λ d. d.system_settings)
    lift (get_platform_settings env table)

  unfoldable pub platform_settings_put : ℕ → PlatformSettings → Tx PlatformSettings
  platform_settings_put ts payload = do
    actor ← require_admin request
    checked ← lift (check_settings known_zone payload)
    modify (λ d. record d {
      system_settings = store_rows (platform_settings_to_rows payload) d.system_settings;
    })
    audit actor.username "update" "system-settings:platform" 0 ts
    table ← query (λ d. d.system_settings)
    lift (get_platform_settings env table)

-- ===== src/Settings/Tests.antt =====
-- A concrete run of the settings.
use cordia.Base.{[], nat_eq, none, refl, some, str_eq, units, ◌≡◌}
use cordia.Settings.{floored, not_finite, negative, StoredSettings, get_settings, set_settings}
use cordia.Settings.Normal.{IsNormal, get_settings-set_settings}

abbrev odd_settings : StoredSettings
odd_settings = record {
  mode = some (units "ephemeral");
  max_messages_on_open = none;
  max_total_messages = some (floored 7);
  max_storage_mb = some not_finite;
  max_sync_kb = some negative;
  attachment_download_allow = some (units "never");
}

get_settings-set_settings_example :
    IsNormal (set_settings (some (units "a")) (units "k") odd_settings []).0
    × (get_settings
          (some (units "a"))
          (units "k")
          (set_settings (some (units "a")) (units "k") odd_settings []).1
        ≡ (set_settings (some (units "a")) (units "k") odd_settings []).0)
get_settings-set_settings_example =
    get_settings-set_settings (some (units "a")) (units "k") odd_settings [] refl

-- ===== src/Settings.antt =====
-- src/lib/messageSettings.ts: the settings of a server's message storage, normalised whenever they
-- are read or written. The local storage is a map from keys to what `JSON.parse` makes of a text.
pub mod Normal
mod Tests
use cordia.Base.{
  Bool, Dict, Option, Str, [], false, if◌then◌else◌, lookup, max, min, nat_eq, none, put, some,
  str_eq, truthy, units, ℕ, ◌++◌, ◌==◌, ◌∷◌,
}

-- A number: its floor if that is 0 or more, below 0, or not finite.
pub data Number : Type 0 where
  floored : ℕ → Number
  negative not_finite : Number

pub data Mode : Type 0 where
  persistent ephemeral : Mode

pub data DownloadAllow : Type 0 where
  always ask : DownloadAllow

pub record MessageStorageSettings : Type 0 where
  pub mode : Mode
  pub max_messages_on_open : ℕ
  pub max_storage_mb : ℕ
  pub max_sync_kb : ℕ
  pub attachment_download_allow : DownloadAllow

-- Partial settings, as they may be stored; `max_total_messages` is an older field.
pub record StoredSettings : Type 0 where
  pub mode : Option Str
  pub max_messages_on_open : Option Number
  pub max_total_messages : Option Number
  pub max_storage_mb : Option Number
  pub max_sync_kb : Option Number
  pub attachment_download_allow : Option Str

abbrev pub default_settings : MessageStorageSettings
default_settings = record {
  mode = persistent;
  max_messages_on_open = 500;
  max_storage_mb = 150;
  max_sync_kb = 256;
  attachment_download_allow = always;
}

unfoldable pub clamp_int : Number → ℕ → ℕ → ℕ
clamp_int not_finite low high = low
clamp_int negative low high = low
clamp_int (floored n) low high = max low (min high n)

-- a ?? b ?? default
abbrev pub or_number : Option Number → Number → Number
or_number none n = n
or_number (some m) n = m

abbrev pub is_text : Option Str → Str → Bool
is_text none text = false
is_text (some s) text = s == text

unfoldable pub normalize : Option StoredSettings → MessageStorageSettings
normalize none = default_settings
normalize (some v) = record {
  mode = if is_text v.mode (units "ephemeral") then ephemeral else persistent;
  max_messages_on_open =
      clamp_int (or_number v.max_messages_on_open (or_number v.max_total_messages (floored 500))) 50
        5000;
  max_storage_mb = clamp_int (or_number v.max_storage_mb (floored 150)) 1 512;
  max_sync_kb = clamp_int (or_number v.max_sync_kb (floored 256)) 32 4096;
  attachment_download_allow =
      if is_text v.attachment_download_allow (units "ask") then ask else always;
}

abbrev mode_text : Mode → Str
mode_text persistent = units "persistent"
mode_text ephemeral = units "ephemeral"

abbrev allow_text : DownloadAllow → Str
allow_text always = units "always"
allow_text ask = units "ask"

-- What `JSON.parse` reads of settings that `JSON.stringify` wrote.
unfoldable pub as_stored : MessageStorageSettings → StoredSettings
as_stored s = record {
  mode = some (mode_text s.mode);
  max_messages_on_open = some (floored s.max_messages_on_open);
  max_total_messages = none;
  max_storage_mb = some (floored s.max_storage_mb);
  max_sync_kb = some (floored s.max_sync_kb);
  attachment_download_allow = some (allow_text s.attachment_download_allow);
}

unfoldable pub key_for : Option Str → Str → Str
key_for none pk = units "cordia:message-storage-settings:" ++ pk
key_for (some []) pk = units "cordia:message-storage-settings:" ++ pk
key_for (some (c ∷ account)) pk =
    units "cordia:message-storage-settings:" ++ ((c ∷ account) ++ (units ":" ++ pk))

-- getMessageStorageSettings
unfoldable pub get_settings : Option Str → Str → Dict Str StoredSettings → MessageStorageSettings
get_settings account pk storage =
    if truthy pk then normalize (lookup (key_for account pk) storage) else default_settings

-- setMessageStorageSettings, where the storage takes the write: the settings that it returns, and
-- the storage after it.
unfoldable pub set_settings :
    Option Str
    → Str
    → StoredSettings
    → Dict Str StoredSettings
    → MessageStorageSettings × Dict Str StoredSettings
set_settings account pk value storage =
    let next = normalize (some value) in
    if truthy pk
    then (next, put (key_for account pk) (as_stored next) storage)
    else (default_settings, storage)

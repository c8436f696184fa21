-- ===== src/Settings/Normal.antt =====
-- Normalised settings are within bounds, and come back as they were stored.
use cordia.Base.{
  Dict, Option, Str, ap, arith, lookup, lookup-put, nat_eq, none, put, some, str_beq_iff, str_eq,
  true, truthy, ℕ, ◌∙◌, ◌≡◌, ◌≤◌,
}
use cordia.Settings.{
  Number, floored, negative, not_finite, MessageStorageSettings, StoredSettings, clamp_int,
  normalize, as_stored, key_for, get_settings, set_settings,
}

pub record IsNormal (s : MessageStorageSettings) : Type 0 where
  pub messages : (50 ≤ s.max_messages_on_open) × (s.max_messages_on_open ≤ 5000)
  pub storage : (1 ≤ s.max_storage_mb) × (s.max_storage_mb ≤ 512)
  pub sync : (32 ≤ s.max_sync_kb) × (s.max_sync_kb ≤ 4096)

clamp_int-bounds :
    (v : Number) (low high : ℕ)
    → low ≤ high
    → (low ≤ clamp_int v low high) × (clamp_int v low high ≤ high)
unfolding clamp_int
clamp_int-bounds (floored n) low high h = omega arith
clamp_int-bounds negative low high h = omega arith
clamp_int-bounds not_finite low high h = omega arith

normalize-IsNormal : (v : Option StoredSettings) → IsNormal (normalize v)
unfolding normalize
normalize-IsNormal none = record {
  messages = omega arith;
  storage = omega arith;
  sync = omega arith;
}
normalize-IsNormal (some v) = record {
  messages = clamp_int-bounds _ 50 5000 (omega arith);
  storage = clamp_int-bounds _ 1 512 (omega arith);
  sync = clamp_int-bounds _ 32 4096 (omega arith);
}

normalize-as_stored : (s : MessageStorageSettings) → IsNormal s → normalize (some (as_stored s)) ≡ s
unfolding normalize as_stored clamp_int
normalize-as_stored s w =
    ground (arith, w.messages.0, w.messages.1, w.storage.0, w.storage.1, w.sync.0, w.sync.1)

-- Where the storage takes the write: what is set is within its bounds, whatever it was set to, and
-- is what is read afterwards.
pub get_settings-set_settings :
    (account : Option Str) (pk : Str) (value : StoredSettings) (storage : Dict Str StoredSettings)
    → truthy pk ≡ true
    → let (next, after) = set_settings account pk value storage in
      IsNormal next × (get_settings account pk after ≡ next)
unfolding get_settings set_settings
get_settings-set_settings account pk value storage t =
    let k = key_for account pk in
    let next = normalize (some value) in
    let found : lookup k (put k (as_stored next) storage) ≡ some (as_stored next) =
      ground (arith, lookup-put k k (as_stored next) storage, str_beq_iff k k) in
    let normal = normalize-IsNormal (some value) in
    rw t (normal, ap normalize found ∙ normalize-as_stored next normal)

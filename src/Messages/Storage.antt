-- ===== src/Messages/Storage.antt =====
-- The stored chats of src/contexts/EphemeralMessagesContext.tsx: ensureBucketLoaded,
-- persistBucketIfNeeded and the effect that stores every bucket after a change. The local storage is
-- a map from keys to what `JSON.parse` makes of a text. The aspect ratios that are merged into what
-- is loaded, for display, and the receipts that the effect sends are left out.
pub mod Lost
pub mod Single
pub mod Kept
mod Tests
use cordia.Base.{
  List, Option, Str, [], contains, drop, if◌then◌else◌, lookup, nat_eq, none, not, put, remove,
  some, str_eq, truthy, units, ℕ, ◌&&◌, ◌++◌, ◌||◌, ◌∷◌,
}
use cordia.Messages.{ChatMessage, MessageBuckets}
use cordia.Messages.Buckets.{bucket_key, list_of}
use cordia.Messages.Incoming.{IncomingChat, enter}
use cordia.Messages.Prune.{starts_with, prune_buckets}
use cordia.Settings.{MessageStorageSettings, Mode, persistent, ephemeral}

-- `loaded_buckets` is loadedBucketsRef.
pub record Chats : Type 0 where
  pub buckets : MessageBuckets
  pub loaded_buckets : List Str
  pub storage : MessageBuckets

-- persistBucketKeyForAccount, for an account.
unfoldable pub persist_key : Str → Str → Str
persist_key account bucket =
    units "cordia:ephemeral-bucket" ++ (units ":" ++ (account ++ (units ":" ++ bucket)))

-- The first part of bucket.split('::').
unfoldable pub until_colons : Str → Str
until_colons [] = []
until_colons (c ∷ s) = if starts_with (units "::") (c ∷ s) then [] else c ∷ until_colons s

-- What follows the first '::', or nothing.
unfoldable pub after_colons : Str → Str
after_colons [] = []
after_colons (c ∷ s) = if starts_with (units "::") (c ∷ s) then drop 1 s else after_colons s

-- Everything of the last account is dropped, and only what each chat needs is loaded later.
unfoldable pub log_in : MessageBuckets → Chats
log_in storage = record { buckets = []; loaded_buckets = []; storage = storage }

module _ (stored_bytes : MessageBuckets → ℕ) (time_of : Str → ℕ) (account : Str)
    (settings : Str → MessageStorageSettings) where
  -- `here` is what the bucket has in memory; if there is something, what is stored is not taken.
  unfoldable pub merge_loaded :
      Str → Str → List ChatMessage → MessageBuckets → List ChatMessage → MessageBuckets
  merge_loaded signing_pubkey bucket list prev [] =
      prune_buckets stored_bytes time_of (put bucket list prev)
        (settings signing_pubkey).max_storage_mb signing_pubkey
  merge_loaded signing_pubkey bucket list prev (m ∷ here) = prev

  unfoldable pub load_bucket : Str → Str → Option (List ChatMessage) → Chats → Chats
  load_bucket signing_pubkey bucket none s = s
  load_bucket signing_pubkey bucket (some []) s = s
  load_bucket signing_pubkey bucket (some (m ∷ ms)) s = record s {
    buckets =
        merge_loaded signing_pubkey bucket (m ∷ ms) s.buckets (list_of (lookup bucket s.buckets));
  }

  unfoldable pub ensure_bucket_loaded : Str → Str → Chats → Chats
  ensure_bucket_loaded signing_pubkey chat_id s =
      let bucket = bucket_key signing_pubkey chat_id in
      if not (truthy account && truthy signing_pubkey && truthy chat_id)
        || contains s.loaded_buckets bucket
      then s
      else load_bucket signing_pubkey bucket (lookup (persist_key account bucket) s.storage)
          (record s { loaded_buckets = s.loaded_buckets ++ bucket ∷ [] })

  unfoldable pub write_bucket : Mode → Str → List ChatMessage → MessageBuckets → MessageBuckets
  write_bucket ephemeral key list storage = remove key storage
  write_bucket persistent key [] storage = remove key storage
  write_bucket persistent key (m ∷ ms) storage = put key (m ∷ ms) storage

  -- persistBucketIfNeeded, where the storage takes the write.
  unfoldable pub persist_bucket : Str → Str → List ChatMessage → MessageBuckets → MessageBuckets
  persist_bucket signing_pubkey chat_id list storage =
      write_bucket (settings signing_pubkey).mode
        (persist_key account (bucket_key signing_pubkey chat_id)) list storage

  -- The effect's loop over the buckets.
  unfoldable pub persist_each : MessageBuckets → MessageBuckets → MessageBuckets
  persist_each [] storage = storage
  persist_each ((bucket, list) ∷ buckets) storage =
      let signing_pubkey = until_colons bucket in
      let chat_id = until_colons (after_colons bucket) in
      persist_each buckets (
        if truthy signing_pubkey && truthy chat_id
        then persist_bucket signing_pubkey chat_id list storage
        else storage)

  unfoldable pub persist_all : Chats → Chats
  persist_all s = record s {
    storage = if truthy account then persist_each s.buckets s.storage else s.storage;
  }

  -- A message comes in: the part of the handler that changes the buckets, and the effect.
  unfoldable pub take_in : IncomingChat → ChatMessage → Chats → Chats
  take_in d msg s = persist_all (record s {
    buckets = enter stored_bytes time_of (λ pk. (settings pk).max_storage_mb) d msg s.buckets;
  })

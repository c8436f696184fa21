-- ===== src/Messages/Storage/Tests.antt =====
-- Stored chats at an input.
use mathlib.Core.List.{Perm}
use cordia.Base.{
  List, Str, [], arith, false, insert_by, length, lookup, nat_eq, none, refl, some, sort_by,
  str_beq_iff, str_eq, units, ℕ, ◌*◌, ◌++◌, ◌+◌, ◌∷◌, ◌≡◌,
}
use cordia.Messages.{ChatMessage, MessageBuckets, text}
use cordia.Messages.Buckets.{bucket_key, list_of}
use cordia.Messages.Incoming.{IncomingChat}
use cordia.Settings.{MessageStorageSettings, default_settings}
use cordia.Messages.Storage.{persist_key, log_in, ensure_bucket_loaded, take_in}
use cordia.Messages.Storage.Lost.{IsKept, take_in_unopened}
use cordia.Messages.Storage.Single.{by_time}
use cordia.Messages.Storage.Kept.{take_in_opened}

abbrev note : Str → Str → ChatMessage
note id sent_at = record {
  id = id;
  signing_pubkey = units "k";
  chat_id = units "c";
  from_user_id = units "ann";
  body = units "hello";
  content = text;
  sent_at = sent_at;
  local_only = false;
  delivery_status = none;
  delivered_by = none;
  bundling_progress = none;
  encrypted_payload = none;
}

abbrev came : IncomingChat
came = record {
  signing_pubkey = units "k";
  chat_id = units "c";
  message_id = units "9";
  from_user_id = units "ann";
  encrypted_payload = units "x";
  sent_at = units "b";
}

-- Two hundred bytes for each message.
abbrev weigh : MessageBuckets → ℕ
weigh [] = 2
weigh ((k, list) ∷ buckets) = length list * 200 + weigh buckets

-- The first character tells the time.
abbrev time_of : Str → ℕ
time_of [] = 0
time_of (c ∷ s) = c

abbrev everywhere : Str → MessageStorageSettings
everywhere pk = default_settings

abbrev fresh : ChatMessage
fresh = note (units "9") (units "b")

abbrev history : List ChatMessage
history = note (units "2") (units "c") ∷ note (units "1") (units "a") ∷ []

abbrev chat_key : Str
chat_key = bucket_key (units "k") (units "c")

abbrev disk : MessageBuckets
disk = (persist_key (units "me") chat_key, history) ∷ []

came-IsKept : IsKept weigh (units "me") everywhere came fresh
came-IsKept = record {
  has_account = refl;
  has_server = refl;
  has_chat = refl;
  server_plain = refl;
  chat_plain = refl;
  is_persistent = refl;
  fits = omega arith;
}

take_in_unopened_example :
    let s =
      ensure_bucket_loaded weigh time_of
        (units "me")
        everywhere
        (units "k")
        (units "c")
        (take_in weigh time_of (units "me") everywhere came fresh (log_in disk)) in
    (lookup (persist_key (units "me") chat_key) s.storage ≡ some (fresh ∷ []))
    × (list_of (lookup chat_key s.buckets) ≡ fresh ∷ [])
take_in_unopened_example =
    take_in_unopened weigh time_of (units "me") everywhere came fresh disk came-IsKept

disk_has : lookup (persist_key (units "me") chat_key) disk ≡ some history
unfolding lookup
disk_has =
    ground
      (arith, str_beq_iff (persist_key (units "me") chat_key) (persist_key (units "me") chat_key))

take_in_opened_example :
    let s =
      ensure_bucket_loaded weigh time_of
        (units "me")
        everywhere
        (units "k")
        (units "c")
        (log_in disk) in
    let after = by_time time_of chat_key (by_time time_of chat_key history ++ fresh ∷ []) in
    (lookup
        (persist_key (units "me") chat_key)
        (take_in weigh time_of (units "me") everywhere came fresh s).storage
      ≡ some after)
    × Perm after (history ++ fresh ∷ [])
unfolding sort_by insert_by
take_in_opened_example =
    take_in_opened weigh time_of (units "me") everywhere came fresh disk
      (note (units "2") (units "c")) (note (units "1") (units "a") ∷ []) came-IsKept
      (omega arith, omega arith) disk_has refl

-- ===== src/Messages/Sending/Arrival.antt =====
-- A message that is sent arrives as it was sent.
use cordia.Base.{
  Bool, Bool-cases, Option, Str, [], ap, arith, false, inl, inr, is_space, nat_eq, none, refl, some,
  str_eq, trim, trim_end, trim_start, true, truthy, ℕ, ◌∙◌, ◌∷◌, ◌≡◌,
}
use cordia.Messages.{text, ChatMessage, MessageBuckets}
use cordia.Messages.Incoming.{
  IncomingChat, Payload, plain, Inbox, receive, on_incoming, open_payload, message_of,
}
use cordia.Messages.Buckets.{append_message}
use cordia.Messages.Prune.{append_and_prune}
use cordia.Messages.Prune.Cut.{IsPruned, prune_buckets-IsPruned}
use cordia.Messages.Storage.{ensure_bucket_loaded}
use cordia.Messages.Sending.{
  RelayedChat, Sender, Address, local_message, relay, echo, send_text, send_message,
}
use cordia.Settings.{MessageStorageSettings}

trim_end-head : (c : ℕ) (s : Str) → is_space c ≡ false → trim_end (c ∷ s) ≡ c ∷ trim_end s
trim_end-head c s h = ground (arith, h)

trim_end-trim_end : (s : Str) → trim_end (trim_end s) ≡ trim_end s
trim_end-trim_end [] = refl
trim_end-trim_end (c ∷ s) = ground (arith, trim_end-trim_end s)

trim_start-trim : (s : Str) → trim_start (trim_end (trim_start s)) ≡ trim_end (trim_start s)
trim_start-trim [] = refl
trim_start-trim (c ∷ s) = elim (Bool-cases (is_space c)) [
  | inl h ↦ rw h (trim_start-trim s)
  | inr h ↦ rw (h, trim_end-head c s h, h) refl
]

pub trim-trim : (s : Str) → trim (trim s) ≡ trim s
unfolding trim
trim-trim s = ap trim_end (trim_start-trim s) ∙ trim_end-trim_end (trim_start s)

-- What the relay makes of a message: the beacon adds the sender and a time.
abbrev pub passed_on : RelayedChat → Str → Str → IncomingChat
passed_on r from_user_id sent_at = record {
  signing_pubkey = r.signing_pubkey;
  chat_id = r.chat_id;
  message_id = r.message_id;
  from_user_id = from_user_id;
  encrypted_payload = r.encrypted_payload;
  sent_at = sent_at;
}

abbrev pub sent : Address → Str → Str → RelayedChat
sent to id payload = record {
  signing_pubkey = to.signing_pubkey;
  chat_id = to.chat_id;
  message_id = id;
  encrypted_payload = payload;
}

-- The sender's copy as the receiver has it.
abbrev pub as_received : ChatMessage → ChatMessage
as_received m = record m {
  local_only = false;
  delivery_status = none;
  delivered_by = none;
  encrypted_payload = none;
}

-- The receiver has the server's key, and reads what was encrypted.
abbrev pub Opens :
    (Str → Payload → Option Str) → (Str → Str → Option Payload) → Address → Payload → Str → Type 0
Opens encrypt decrypt to payload c =
    (encrypt to.server_id payload ≡ some c) × (decrypt to.signing_pubkey c ≡ some payload)

-- The parts of the message's way are named, and it has a date.
abbrev pub IsAddressed : (Str → Bool) → Address → Str → Str → Str → Type 0
IsAddressed is_date to id sent_at c =
    (truthy to.signing_pubkey ≡ true)
    × (truthy to.chat_id ≡ true)
    × (truthy c ≡ true)
    × (truthy id ≡ true)
    × (is_date sent_at ≡ true)

module _ (stored_bytes : MessageBuckets → ℕ) (time_of : Str → ℕ) (account : Str)
    (settings : Str → MessageStorageSettings) where
  -- The sender's buckets are `placed`, less what the storage limit of the server takes off; then the
  -- chat is loaded, if it was not.
  abbrev pub Shows : Address → MessageBuckets → Sender → Sender → Type 0
  Shows to placed s t =
      (after : MessageBuckets) × IsPruned stored_bytes time_of
        (settings to.signing_pubkey).max_storage_mb to.signing_pubkey placed after
      × (t.chats
          ≡ ensure_bucket_loaded stored_bytes time_of account settings to.signing_pubkey to.chat_id
              (record s.chats { buckets = after }))

module _ (stored_bytes : MessageBuckets → ℕ) (time_of : Str → ℕ) (account : Str)
    (settings : Str → MessageStorageSettings) (max_storage_mb : Str → ℕ) (is_date : Str → Bool)
    (encrypt : Str → Payload → Option Str) (decrypt : Str → Str → Option Payload) where
  on_incoming-passed_on :
      (to : Address) (id sent_at at me now c : Str) (p : Payload) (inbox : Inbox)
      → IsAddressed is_date to id sent_at c
      → decrypt to.signing_pubkey c ≡ some p
      → on_incoming stored_bytes time_of max_storage_mb is_date decrypt me now
          (passed_on (sent to id c) to.from_user_id at)
          inbox
        ≡ open_payload stored_bytes time_of max_storage_mb is_date decrypt me now
            (passed_on (sent to id c) to.from_user_id at)
            p
            inbox
  unfolding on_incoming
  on_incoming-passed_on to id sent_at at me now c p inbox (pk, chat, some_c, some_id, _) e =
      rw (pk, chat, some_c, some_id, e) refl

  open_plain :
      (to : Address) (id sent_at at me now c t : Str) (inbox : Inbox)
      → is_date sent_at ≡ true
      → truthy t ≡ true
      → trim t ≡ t
      → open_payload stored_bytes time_of max_storage_mb is_date decrypt me now
          (passed_on (sent to id c) to.from_user_id at)
          (record { kind = plain t; sent_at = sent_at })
          inbox
        ≡ receive stored_bytes time_of max_storage_mb
            (passed_on (sent to id c) to.from_user_id at)
            (as_received (local_message to id sent_at t text c))
            inbox
  unfolding open_payload message_of local_message
  open_plain to id sent_at at me now c [] inbox date full trimmed = absurd (ground (arith, full))
  open_plain to id sent_at at me now c (x ∷ t) inbox date full trimmed = rw (date, trimmed) refl

  -- A text that is not blank is appended to the sender's chat, within the storage limit, and relayed,
  -- once; the client of another member that can decrypt it, when the relay passes it on with whatever
  -- time, takes in the message that the sender's chat was given, less what is the sender's.
  pub send_message-arrives :
      (to : Address) (id sent_at body at me now c : Str) (s : Sender) (inbox : Inbox)
      → truthy (trim body) ≡ true
      → Opens encrypt decrypt to (record { kind = plain (trim body); sent_at = sent_at }) c
      → IsAddressed is_date to id sent_at c
      → ((send_message stored_bytes time_of account settings encrypt to id sent_at body s).relayed
          ≡ sent to id c ∷ s.relayed)
        × (own : ChatMessage) × Shows stored_bytes time_of account settings to
            (append_message s.chats.buckets to.signing_pubkey to.chat_id own)
            s
            (send_message stored_bytes time_of account settings encrypt to id sent_at body s)
        × (on_incoming stored_bytes time_of max_storage_mb is_date decrypt me now
              (passed_on (sent to id c) to.from_user_id at)
              inbox
            ≡ receive stored_bytes time_of max_storage_mb
                (passed_on (sent to id c) to.from_user_id at)
                (as_received own)
                inbox)
        × (own ≡ local_message to id sent_at (trim body) text c)
  unfolding send_message send_text echo relay append_and_prune
  send_message-arrives to id sent_at body at me now c s inbox full (out, back) addressed = (
    rw (full, out) refl,
    local_message to id sent_at (trim body) text c,
    (_, prune_buckets-IsPruned stored_bytes time_of _ _ _, rw (full, out) refl),
    on_incoming-passed_on to id sent_at at me now c _ inbox addressed back
        ∙ open_plain to id sent_at at me now c (trim body) inbox addressed.4 full (trim-trim body),
    refl,
  )

-- ===== src/Messages/Incoming.antt =====
-- A chat message that comes in, and the unread counts: the handler of
-- `cordia:ephemeral-chat-incoming`, incrementUnreadForSigning and markServerSeenBySigning of
-- src/contexts/EphemeralMessagesContext.tsx. Decryption with the JSON parser is the parameter
-- `decrypt`, and `is_date` tells whether `Date.parse` accepts a text.
pub mod Unread
use cordia.Base.{
  Bool, Dict, List, Option, Str, [], any, false, if◌then◌else◌, keep, lookup, nat_eq, none, not,
  put, some, str_eq, trim, true, truthy, ℕ, ◌&&◌, ◌+◌, ◌==◌, ◌∷◌,
}
use cordia.Messages.{AttachmentMeta, Content, text, attachment, mixed, ChatMessage, MessageBuckets}
use cordia.Messages.Buckets.{bucket_key, list_of, is_message}
use cordia.Messages.Prune.{append_and_prune}
use cordia.Transfers.Rows.{Transfer, HistoryEntry, Status, rejected, is_download}

pub record IncomingChat : Type 0 where
  pub signing_pubkey : Str
  pub chat_id : Str
  pub message_id : Str
  pub from_user_id : Str
  pub encrypted_payload : Str
  pub sent_at : Str

-- EphemeralPayload
pub data PayloadKind : Type 0 where
  plain : Str → PayloadKind
  one : AttachmentMeta → PayloadKind
  many : List AttachmentMeta → Str → PayloadKind
  reshared : Str → PayloadKind

pub record Payload : Type 0 where
  pub kind : PayloadKind
  pub sent_at : Str

-- `server_ids` is `signingToServerIdRef`, `active` is `activeSigningPubkeyRef`.
pub record Inbox : Type 0 where
  pub buckets : MessageBuckets
  pub unread_count_by_server : Dict Str ℕ
  pub last_seen_at_by_server : Dict Str Str
  pub server_ids : Dict Str Str
  pub active : Str
  pub transfers : List Transfer
  pub history : List HistoryEntry

abbrev pub count_of : Option ℕ → ℕ
count_of none = 0
count_of (some n) = n

-- A server id that is missing or empty.
abbrev pub id_of : Option Str → Str
id_of none = []
id_of (some id) = id

unfoldable pub increment_unread : Str → Inbox → Inbox
increment_unread signing_pubkey s =
    let id = id_of (lookup signing_pubkey s.server_ids) in
    if truthy id
    then record s {
      unread_count_by_server =
          put id (count_of (lookup id s.unread_count_by_server) + 1) s.unread_count_by_server;
    }
    else s

unfoldable pub mark_server_seen : Str → Str → Inbox → Inbox
mark_server_seen now signing_pubkey s =
    let id = id_of (lookup signing_pubkey s.server_ids) in
    if truthy id
    then record s {
      unread_count_by_server = put id 0 s.unread_count_by_server;
      last_seen_at_by_server = put id now s.last_seen_at_by_server;
    }
    else s

abbrev pub is_rejected : Status → Bool
is_rejected rejected = true
is_rejected _ = false

-- The rejected rows of a reshared attachment go, so that it can be asked for again.
unfoldable pub forget_rejected : Str → Inbox → Inbox
forget_rejected id s = record s {
  transfers =
      keep (λ t. not (is_download t.direction && t.attachment_id == id && is_rejected t.status))
        s.transfers;
  history =
      keep (λ h. not (is_download h.direction && h.attachment_id == id && is_rejected h.status))
        s.history;
}

abbrev message_with : IncomingChat → Str → Str → Content → ChatMessage
message_with d sent_at body content = record {
  id = d.message_id;
  signing_pubkey = d.signing_pubkey;
  chat_id = d.chat_id;
  from_user_id = d.from_user_id;
  body = body;
  content = content;
  sent_at = sent_at;
  local_only = false;
  delivery_status = none;
  delivered_by = none;
  bundling_progress = none;
  encrypted_payload = none;
}

-- `if (!text) return`
unless_empty : Str → ChatMessage → Option ChatMessage
unless_empty [] m = none
unless_empty (c ∷ s) m = some m

text_message : IncomingChat → Str → Str → Option ChatMessage
text_message d sent_at body = unless_empty (trim body) (message_with d sent_at (trim body) text)

-- The message that a payload makes, if any.
unfoldable pub message_of : IncomingChat → Str → PayloadKind → Option ChatMessage
unfolding text_message unless_empty
message_of d sent_at (plain body) = text_message d sent_at body
message_of d sent_at (one a) =
    unless_empty (trim a.file_name) (message_with d sent_at (trim a.file_name) (attachment a))
message_of d sent_at (many [] body) = text_message d sent_at body
message_of d sent_at (many (a ∷ rest) body) =
    some (message_with d sent_at (trim body) (mixed (a ∷ rest)))
message_of d sent_at (reshared id) = none

module _ (stored_bytes : MessageBuckets → ℕ) (time_of : Str → ℕ) (max_storage_mb : Str → ℕ) where
  -- A message whose id the bucket has is not added again.
  unfoldable pub enter : IncomingChat → ChatMessage → MessageBuckets → MessageBuckets
  enter d msg prev =
      if any (is_message d.message_id)
        (list_of (lookup (bucket_key d.signing_pubkey d.chat_id) prev))
      then prev
      else append_and_prune stored_bytes time_of prev (max_storage_mb d.signing_pubkey)
          d.signing_pubkey d.chat_id msg

  unfoldable pub receive : IncomingChat → ChatMessage → Inbox → Inbox
  receive d msg s =
      let s' = record s { buckets = enter d msg s.buckets } in
      if d.signing_pubkey == s.active then s' else increment_unread d.signing_pubkey s'

  receive_if : IncomingChat → Option ChatMessage → Inbox → Inbox
  receive_if d none s = s
  receive_if d (some msg) s = receive d msg s

  module _ (is_date : Str → Bool) (decrypt : Str → Str → Option Payload) where
    -- The sender's time, if it is a date; else the relay's, or the receiver's own.
    effective_sent_at : Str → IncomingChat → Payload → Str
    effective_sent_at now d p =
        if is_date p.sent_at then p.sent_at else if truthy d.sent_at then d.sent_at else now

    unfoldable pub open_payload : Str → Str → IncomingChat → Payload → Inbox → Inbox
    unfolding effective_sent_at receive_if
    open_payload me now d p s = elim p.kind [
      | reshared id ↦
          if truthy (trim id) && not (d.from_user_id == me) then forget_rejected (trim id) s else s
      | kind ↦ receive_if d (message_of d (effective_sent_at now d p) kind) s
    ]

    is_incoming : IncomingChat → Bool
    is_incoming d =
        truthy d.signing_pubkey
        && truthy d.chat_id
        && truthy d.encrypted_payload
        && truthy d.message_id

    -- The handler; `me` is the user.
    unfoldable pub on_incoming : Str → Str → IncomingChat → Inbox → Inbox
    unfolding is_incoming
    on_incoming me now d s =
        if is_incoming d
        then (elim (decrypt d.signing_pubkey d.encrypted_payload) [
          | none ↦ s
          | some p ↦ open_payload me now d p s
        ])
        else s

-- ===== src/Messages/Sending.antt =====
-- The sending of chat messages in src/contexts/EphemeralMessagesContext.tsx: sendMessage,
-- sendAttachmentMessage, addBundlingMessage, updateBundlingProgress and sendMixedMessage. JSON and
-- encryption are the parameter `encrypt`, which may fail; a new message's id and the date are
-- arguments. A send to the relay is an entry of `relayed`, the last one first.
mod Local
pub mod Arrival
pub mod Bundling
pub mod Missing
mod Tests
unfoldable pub use Local.*
use cordia.Base.{
  Bool, Dict, List, Option, Str, [], false, if◌then◌else◌, nat_eq, none, put, some, str_eq, trim,
  true, truthy, ℕ, ◌&&◌, ◌+◌, ◌∷◌,
}
use cordia.Messages.{
  AttachmentMeta, Content, text, attachment, mixed, ChatMessage, MessageBuckets, DeliveryStatus,
  pending, bundling,
}
use cordia.Messages.Buckets.{append_message, replace_message_by_id, update_bundling_progress_by_id}
use cordia.Messages.Incoming.{Payload, plain, one, many}
use cordia.Messages.Prune.{append_and_prune, prune_buckets}
use cordia.Messages.Storage.{Chats, ensure_bucket_loaded}
use cordia.Settings.{MessageStorageSettings}

module _ (stored_bytes : MessageBuckets → ℕ) (time_of : Str → ℕ) (account : Str)
    (settings : Str → MessageStorageSettings) where
  -- appendAndPruneBySigning, and the load of the chat.
  unfoldable pub echo : Address → ChatMessage → Sender → Sender
  echo to msg s = record s {
    chats =
        ensure_bucket_loaded stored_bytes time_of account settings to.signing_pubkey to.chat_id
          (record s.chats {
            buckets =
                append_and_prune stored_bytes time_of s.chats.buckets
                  (settings to.signing_pubkey).max_storage_mb to.signing_pubkey to.chat_id msg;
          });
  }

  unfoldable pub add_bundling_message :
      (ℕ → Str) → Address → Str → Str → List StagedFile → Option Str → Sender → Sender
  add_bundling_message attachment_id to id sent_at staged body s =
      echo to (bundling_message attachment_id to id sent_at staged body) s

  unfoldable pub update_bundling_progress : Str → ℕ → Sender → Sender
  update_bundling_progress id percent s = record s {
    chats = record s.chats { buckets = update_bundling_progress_by_id s.chats.buckets id percent };
  }

  -- The local message takes the place of the bundling one, or is appended.
  unfoldable pub place : Option Str → Address → ChatMessage → MessageBuckets → MessageBuckets
  place none to msg prev = append_message prev to.signing_pubkey to.chat_id msg
  place (some id) to msg prev =
      if truthy id
      then replace_message_by_id prev to.signing_pubkey to.chat_id id msg
      else append_message prev to.signing_pubkey to.chat_id msg

  unfoldable pub echo_placed : Option Str → Address → ChatMessage → Sender → Sender
  echo_placed replaced to msg s = record s {
    chats =
        ensure_bucket_loaded stored_bytes time_of account settings to.signing_pubkey to.chat_id
          (record s.chats {
            buckets =
                prune_buckets stored_bytes time_of (place replaced to msg s.chats.buckets)
                  (settings to.signing_pubkey).max_storage_mb to.signing_pubkey;
          });
  }

  module _ (encrypt : Str → Payload → Option Str) where
    unfoldable pub send_text : Address → Str → Str → Str → Option Str → Sender → Sender
    send_text to id sent_at trimmed none s = s
    send_text to id sent_at trimmed (some payload) s =
        echo to (local_message to id sent_at trimmed text payload) (relay to id payload s)

    unfoldable pub send_message : Address → Str → Str → Str → Sender → Sender
    send_message to id sent_at body s =
        if truthy (trim body)
        then send_text to id sent_at (trim body)
            (encrypt to.server_id (record { kind = plain (trim body); sent_at = sent_at })) s
        else s

    unfoldable pub send_file : Address → Str → Str → AttachmentMeta → Option Str → Sender → Sender
    send_file to id sent_at a none s = s
    send_file to id sent_at a (some payload) s =
        echo to (local_message to id sent_at a.file_name (attachment a) payload)
          (relay to id payload s)

    unfoldable pub send_attachment_message : Address → Str → Str → AttachmentMeta → Sender → Sender
    send_attachment_message to id sent_at a s =
        if truthy a.attachment_id
        then send_file to id sent_at a
            (encrypt to.server_id (record { kind = one a; sent_at = sent_at })) s
        else s

    -- `id` is the replaced message's, if there is one.
    unfoldable pub send_files :
        Option Str → Address → Str → Str → List AttachmentMeta → Str → Option Str → Sender → Sender
    send_files replaced to id sent_at files body none s = s
    send_files replaced to id sent_at files body (some payload) s =
        echo_placed replaced to (local_message to id sent_at body (mixed files) payload)
          (relay to id payload s)

    unfoldable pub send_mixed_message :
        Option Str → Address → Str → Str → List AttachmentMeta → Option Str → Sender → Sender
    send_mixed_message replaced to fresh sent_at [] body s = s
    send_mixed_message replaced to fresh sent_at (a ∷ files) body s =
        send_files replaced to (id_or replaced fresh) sent_at (a ∷ files) (text_or_empty body)
          (encrypt to.server_id
            (record { kind = many (a ∷ files) (text_or_empty body); sent_at = sent_at }))
          s

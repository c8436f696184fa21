-- ===== src/Transfers/Consent.antt =====
-- A member's request for an attachment of the user: `onIncomingRequest` of
-- src/contexts/EphemeralMessagesContext.tsx, up to the data channel, whose opening is an event of
-- Transfers.Admission. What happens while the dialog is open is left out; `approves` is its answer.
pub mod Asked
mod Tests
use cordia.Base.{
  Bool, Dict, List, Option, Str, [], any, false, find, flat, if◌then◌else◌, nat_eq, none, not, some,
  str_eq, trim, true, truthy, ℕ, ◌&&◌, ◌==◌, ◌||◌, ◌∷◌,
}
use cordia.Messages.{AttachmentMeta, Content, text, attachment, mixed, ChatMessage, MessageBuckets}
use cordia.Settings.{
  MessageStorageSettings, DownloadAllow, always, ask, StoredSettings, default_settings,
  get_settings,
}
use cordia.Transfers.Rows.{Transfer, upload, connecting, upsert_transfer}
use cordia.Transfers.Admission.{Admission, subscribe}

-- An entry of sharedAttachmentsRef
pub record SharedFile : Type 0 where
  pub attachment_id : Str
  pub file_name : Str
  pub sha256 : Str
  pub size_bytes : ℕ
  pub can_share_now : Bool

pub record TransferResponse : Type 0 where
  pub to_user_id : Str
  pub request_id : Str
  pub accepted : Bool

-- `responses` went to the beacon, and `dialogs` tells of whom the user was asked, the last one first; `storage` is the local storage of the settings.
pub record Uploads : Type 0 where
  pub account : Option Str
  pub user_id : Str
  pub shared : List SharedFile
  pub buckets : MessageBuckets
  pub storage : Dict Str StoredSettings
  pub transfers : List Transfer
  pub admission : Admission
  pub responses : List TransferResponse
  pub dialogs : List Str

abbrev pub carries : Str → Content → Bool
carries id text = false
carries id (attachment meta) = meta.attachment_id == id
carries id (mixed metas) = any (λ meta. meta.attachment_id == id) metas

unfoldable pub related_message : Str → MessageBuckets → Option ChatMessage
related_message id buckets = find (λ message. carries id message.content) (flat buckets)

abbrev pub server_of : Option ChatMessage → Str
server_of none = []
server_of (some message) = message.signing_pubkey

abbrev pub message_id_of : Option ChatMessage → Str
message_id_of none = []
message_id_of (some message) = message.id

abbrev pub is_ask : DownloadAllow → Bool
is_ask ask = true
is_ask always = false

-- Whether the settings of the message's server, or the default ones, say `ask`.
unfoldable pub asks_first : Option ChatMessage → Uploads → Bool
asks_first related s =
    let settings =
      if truthy (server_of related)
      then get_settings s.account (server_of related) s.storage
      else default_settings in
    is_ask settings.attachment_download_allow

unfoldable pub respond : Str → Str → Bool → Uploads → Uploads
respond from request accepted s = record s {
  responses = record { to_user_id = from; request_id = request; accepted = accepted } ∷ s.responses;
}

abbrev pub non_empty : Str → Option Str
non_empty value = if truthy value then some value else none

unfoldable pub grant : Str → Str → SharedFile → Option ChatMessage → Uploads → Uploads
grant from request file related s =
    let row : Transfer = record {
      request_id = request;
      message_id = message_id_of related;
      attachment_id = file.attachment_id;
      from_user_id = s.user_id;
      to_user_id = from;
      file_name = file.file_name;
      direction = upload;
      status = connecting;
      saved_path = none;
      error = none;
      sha256 = some file.sha256;
      server_signing_pubkey = non_empty (server_of related);
    } in
    let told =
      respond from request true
        (record s { transfers = upsert_transfer request (λ _. row) s.transfers }) in
    record told { admission = subscribe file.attachment_id request s.admission }

-- confirmDialog, if the settings say `ask`.
unfoldable pub consult : Str → Option ChatMessage → Uploads → Uploads
consult from related s = if asks_first related s then record s { dialogs = from ∷ s.dialogs } else s

unfoldable pub decide :
    Option SharedFile → Bool → Str → Str → Option ChatMessage → Uploads → Uploads
decide none approves from request related s = respond from request false s
decide (some file) approves from request related s =
    if file.can_share_now
    then (if not (asks_first related s) || approves
        then grant from request file related (consult from related s)
        else respond from request false (consult from related s))
    else respond from request false s

unfoldable pub on_incoming_request : Bool → Str → Str → Str → Uploads → Uploads
on_incoming_request approves from request id s =
    if truthy (trim from) && truthy (trim request) && truthy (trim id)
    then decide (find (λ file. file.attachment_id == trim id) s.shared) approves (trim from)
        (trim request) (related_message (trim id) s.buckets) s
    else s

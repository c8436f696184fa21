-- ===== src/Transfers/Request.antt =====
-- `requestAttachmentDownload` of src/contexts/EphemeralMessagesContext.tsx, before and after its
-- `await` of the swarm's peer list.
pub mod Guards
pub mod Unseen
use cordia.Base.{
  Bool, Dict, List, Str, any, false, find, if◌then◌else◌, keep, leb, lookup, nat_eq, none, not,
  some, str_eq, true, truthy, truthy_option, ◌&&◌, ◌==◌, ◌||◌, ◌∷◌,
}
use cordia.Messages.{AttachmentMeta, ChatMessage}
use cordia.Transfers.Rows.{
  Transfer, HistoryEntry, download, Status, queued, requesting, completed, is_download, is_terminal,
  upsert_transfer, upsert_history,
}
use cordia.Transfers.Queue.{
  QueuedDownloadRequest, Downloads, active_download_count, max_parallel_downloads, enqueue_download,
}

abbrev pub is_completed : Status → Bool
is_completed completed = true
is_completed _ = false

-- hasAccessibleCompletedDownload
abbrev pub accessible : Str → HistoryEntry → Bool
accessible id h =
    is_download h.direction
    && h.attachment_id == id
    && is_completed h.status
    && truthy_option h.saved_path
    && not h.is_inaccessible

pub has_accessible_completed_download : Str → List HistoryEntry → Bool
has_accessible_completed_download id history = truthy id && any (accessible id) history

-- The rows that a new request takes out of the history.
abbrev pub is_gone : Str → HistoryEntry → Bool
is_gone id h =
    is_download h.direction && h.attachment_id == id && is_completed h.status && h.is_inaccessible

-- A download of the message or the attachment that has not ended.
abbrev pub is_duplicate : Str → Str → Transfer → Bool
is_duplicate message id t =
    is_download t.direction
    && (t.message_id == message || t.attachment_id == id)
    && not (is_terminal t.status)

pub data Verdict : Type 0 where
  turned_down : Downloads → Verdict
  goes_on : Downloads → Verdict

-- Up to the `await`: `me` is the user, `cached` the content cache by sha256.
pub check_request : Str → Dict Str Str → ChatMessage → AttachmentMeta → Downloads → Verdict
check_request me cached msg att s =
    if not (truthy me && truthy att.attachment_id && truthy msg.from_user_id)
      || msg.from_user_id == me
    then turned_down s
    else if has_accessible_completed_download att.attachment_id s.history
    then turned_down s
    else if truthy att.sha256 && truthy_option (lookup att.sha256 cached)
    then turned_down s
    else let s' = record s { history = keep (λ h. not (is_gone att.attachment_id h)) s.history } in
      if any (is_duplicate msg.id att.attachment_id) s.seen then turned_down s' else goes_on s'

-- The first peer that is not the user; without one, the sender of the message.
pub peer_for : Str → ChatMessage → List Str → Str
peer_for me msg peers = elim (find (λ p. truthy p && not (p == me)) peers) [
  | none ↦ msg.from_user_id
  | some p ↦ p
]

abbrev pub first_status : Downloads → Status
first_status s = if leb max_parallel_downloads (active_download_count s) then queued else requesting

abbrev pub new_transfer : Str → Str → ChatMessage → AttachmentMeta → Status → Transfer
new_transfer me id msg att status = record {
  request_id = id;
  message_id = msg.id;
  attachment_id = att.attachment_id;
  from_user_id = msg.from_user_id;
  to_user_id = me;
  file_name = att.file_name;
  direction = download;
  status = status;
  saved_path = none;
  error = none;
  sha256 = some att.sha256;
  server_signing_pubkey = none;
}

abbrev new_entry : Str → Str → ChatMessage → AttachmentMeta → Status → HistoryEntry
new_entry me id msg att status = record {
  request_id = id;
  message_id = msg.id;
  attachment_id = att.attachment_id;
  file_name = att.file_name;
  size_bytes = some att.size_bytes;
  from_user_id = msg.from_user_id;
  to_user_id = me;
  direction = download;
  status = status;
  saved_path = none;
  is_inaccessible = false;
  server_signing_pubkey = none;
}

abbrev queue_entry : Str → Str → ChatMessage → AttachmentMeta → Str → QueuedDownloadRequest
queue_entry me id msg att peer = record {
  request_id = id;
  message_id = msg.id;
  attachment_id = att.attachment_id;
  from_user_id = msg.from_user_id;
  to_user_id = me;
  file_name = att.file_name;
  size_bytes = some att.size_bytes;
  preferred_peer_user_id = some peer;
}

-- After the `await`: `id` is the new request id, `peers` the answer of the swarm.
pub begin_request : Str → Str → ChatMessage → AttachmentMeta → List Str → Downloads → Downloads
begin_request me id msg att peers s =
    let status = first_status s in
    let entered = record s {
      transfers = upsert_transfer id (λ _. new_transfer me id msg att status) s.transfers;
      history = upsert_history id (λ _. some (new_entry me id msg att status)) s.history;
    } in
    if leb max_parallel_downloads (active_download_count s)
    then enqueue_download (queue_entry me id msg att (peer_for me msg peers)) entered
    else record entered {
      requests =
          record {
            to_user_id = peer_for me msg peers;
            request_id = id;
            attachment_id = att.attachment_id;
          }
          ∷ s.requests;
    }

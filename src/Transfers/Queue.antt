-- ===== src/Transfers/Queue.antt =====
-- The download queue of src/contexts/EphemeralMessagesContext.tsx. The rows live in a store, and the
-- handlers read `attachmentTransfersRef`, a copy that an effect renews after each render: the two
-- are separate fields here, and `render` is a step of its own.
pub mod Pick
pub mod Slots
pub mod Stale
use cordia.Base.{
  Bool, List, Option, Str, [], false, find, if◌then◌else◌, keep, leb, length, ltb, nat_eq, none,
  not, some, str_eq, suc, zero, ℕ, ◌&&◌, ◌*◌, ◌++◌, ◌+◌, ◌-◌, ◌==◌, ◌∷◌,
}
use cordia.Transfers.Rows.{
  Transfer, HistoryEntry, Direction, download, Status, queued, requesting, connecting, transferring,
  completed, failed, rejected, is_download, is_active, is_terminal, has_id, entry_has_id,
  upsert_transfer, upsert_history,
}

pub record QueuedDownloadRequest : Type 0 where
  pub request_id : Str
  pub message_id : Str
  pub attachment_id : Str
  pub from_user_id : Str
  pub to_user_id : Str
  pub file_name : Str
  pub size_bytes : Option ℕ
  pub preferred_peer_user_id : Option Str

-- The detail of `cordia:send-attachment-transfer-request`.
pub record PeerRequest : Type 0 where
  pub to_user_id : Str
  pub request_id : Str
  pub attachment_id : Str

-- `transfers` and `history` are the store, `seen` is `attachmentTransfersRef.current`, `requests`
-- what was dispatched, the last one first, and `timers` how many calls of
-- `tryStartNextQueuedDownload` a `setTimeout` has due.
pub record Downloads : Type 0 where
  pub transfers : List Transfer
  pub seen : List Transfer
  pub history : List HistoryEntry
  pub queue : List QueuedDownloadRequest
  pub requests : List PeerRequest
  pub timers : ℕ

abbrev pub max_parallel_downloads : ℕ
max_parallel_downloads = 2

abbrev pub max_safe_integer : ℕ
max_safe_integer = 9007199254740991

-- size_bytes ?? Number.MAX_SAFE_INTEGER
abbrev pub size_of : QueuedDownloadRequest → ℕ
size_of q = elim q.size_bytes [ none ↦ max_safe_integer | some n ↦ n ]

abbrev pub counts : Transfer → Bool
counts t = is_download t.direction && is_active t.status

unfoldable pub active_count : List Transfer → ℕ
active_count rows = length (keep counts rows)

-- activeDownloadCount()
unfoldable pub active_download_count : Downloads → ℕ
active_download_count s = active_count s.seen

unfoldable pub enqueue_download : QueuedDownloadRequest → Downloads → Downloads
enqueue_download entry s =
    if leb (size_of entry) (10 * 1024 * 1024)
    then record s { queue = entry ∷ s.queue }
    else record s { queue = s.queue ++ entry ∷ [] }

pub remove_queued_download_request : Str → Downloads → Downloads
remove_queued_download_request id s = record s {
  queue = keep (λ q. not (q.request_id == id)) s.queue;
}

-- The `reduce` and `q.splice(nextIdx, 1)`: the smallest entry, the first of equals, and the others
-- in order.
unfoldable pub take_smallest :
    QueuedDownloadRequest
    → List QueuedDownloadRequest
    → QueuedDownloadRequest × List QueuedDownloadRequest
take_smallest best [] = (best, [])
take_smallest best (q ∷ qs) =
    let later = take_smallest q qs in
    if ltb (size_of later.0) (size_of best) then (later.0, best ∷ later.1) else (best, q ∷ qs)

-- A row that a patch makes where there was none. Its fields are undefined in the source; here it is a
-- queued download, which counts as active once its status is set, where the source's does not: the
-- model may start fewer downloads then, never more.
abbrev pub blank_transfer : Transfer
blank_transfer = record {
  request_id = [];
  message_id = [];
  attachment_id = [];
  from_user_id = [];
  to_user_id = [];
  file_name = [];
  direction = download;
  status = queued;
  saved_path = none;
  error = none;
  sha256 = none;
  server_signing_pubkey = none;
}

-- { ...(prev as AttachmentTransferState), … }
abbrev pub patch : (Transfer → Transfer) → Option Transfer → Transfer
patch f none = f blank_transfer
patch f (some t) = f t

abbrev pub to_requesting : Transfer → Transfer
to_requesting t = record t { status = requesting; error = none }

-- prev?.size_bytes, and the other fields that an entry keeps from its row
abbrev kept_size : Option HistoryEntry → Option ℕ
kept_size none = none
kept_size (some h) = h.size_bytes

abbrev or_else {ℓ} : {A : Type ℓ} → Option A → Option A → Option A
or_else none b = b
or_else (some a) b = some a

abbrev requesting_entry : QueuedDownloadRequest → Option HistoryEntry → HistoryEntry
requesting_entry q prev = record {
  request_id = q.request_id;
  message_id = q.message_id;
  attachment_id = q.attachment_id;
  file_name = q.file_name;
  size_bytes = or_else q.size_bytes (kept_size prev);
  from_user_id = q.from_user_id;
  to_user_id = q.to_user_id;
  direction = download;
  status = requesting;
  saved_path = elim prev [ none ↦ none | some h ↦ h.saved_path ];
  is_inaccessible = elim prev [ none ↦ false | some h ↦ h.is_inaccessible ];
  server_signing_pubkey = elim prev [ none ↦ none | some h ↦ h.server_signing_pubkey ];
}

abbrev pub peer_of : QueuedDownloadRequest → Str
peer_of q = elim q.preferred_peer_user_id [ none ↦ q.from_user_id | some p ↦ p ]

-- The body of the loop: the row and its history entry turn to `requesting`, and the request goes out.
pub start_download : QueuedDownloadRequest → Downloads → Downloads
start_download q s = record s {
  transfers = upsert_transfer q.request_id (patch to_requesting) s.transfers;
  history = upsert_history q.request_id (λ prev. some (requesting_entry q prev)) s.history;
  requests =
      record { to_user_id = peer_of q; request_id = q.request_id; attachment_id = q.attachment_id }
      ∷ s.requests;
}

-- The loop of `tryStartNextQueuedDownload`, with `slots` rounds left.
pub start_loop : ℕ → List QueuedDownloadRequest → Downloads → Downloads
start_loop zero q s = record s { queue = q }
start_loop (suc slots) [] s = record s { queue = [] }
start_loop (suc slots) (q ∷ qs) s =
    let (next, rest) = take_smallest q qs in start_loop slots rest (start_download next s)

-- `slots <= 0` is a subtraction that stops at 0.
pub try_start_next_queued_download : Downloads → Downloads
try_start_next_queued_download s =
    start_loop (max_parallel_downloads - active_download_count s) s.queue s

-- The handlers that end a download: the row turns to `status`, and the next one may start.
pub settle : Str → (Transfer → Transfer) → Downloads → Downloads
settle id f s =
    try_start_next_queued_download
      (record s { transfers = upsert_transfer id (patch f) s.transfers })

-- The effect that copies the rows into the reference after a render.
pub render : Downloads → Downloads
render s = record s { seen = s.transfers }

-- cancelTransferRequest, less the peer connection; a freed slot is filled later, by a timer.
pub cancel_transfer_request : Str → Downloads → Downloads
cancel_transfer_request [] s = s
cancel_transfer_request (c ∷ cs) s =
    let id = c ∷ cs in
    let removed = remove_queued_download_request id s in
    record removed {
      transfers = keep (λ t. not (has_id id t)) s.transfers;
      history = keep (λ h. not (entry_has_id id h)) s.history;
      timers = elim (find (has_id id) s.seen) [
        | none ↦ s.timers
        | some t ↦ if counts t then s.timers + 1 else s.timers
      ];
    }

-- A timer of `cancelTransferRequest` fires.
pub timer : Downloads → Downloads
timer s = try_start_next_queued_download (record s { timers = s.timers - 1 })

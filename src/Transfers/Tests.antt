-- ===== src/Transfers/Tests.antt =====
-- The rows, the queue and the requests at an input.
use cordia.Base.{
  List, Str, [], arith, false, nat_eq, none, refl, some, str_eq, units, ℕ, ◌∷◌, ◌≡◌, ◌≤◌,
}
use cordia.Messages.{AttachmentMeta, ChatMessage, attachment}
use cordia.Transfers.Rows.{Transfer, HistoryEntry, download, transferring, completed}
use cordia.Transfers.Rows.Unique.{IsUnique}
use cordia.Transfers.Queue.{
  QueuedDownloadRequest, Downloads, active_count, max_parallel_downloads, to_requesting,
  try_start_next_queued_download, take_smallest, blank_transfer,
}
use cordia.Transfers.Queue.Pick.{IsFirstSmallest, take_smallest-IsFirstSmallest}
use cordia.Transfers.Queue.Slots.{try_start-within_limit}

abbrev row : Str → Transfer
row id = record blank_transfer { request_id = id; status = transferring }

abbrev two_rows : List Transfer
two_rows = row (units "r1") ∷ row (units "r2") ∷ []

two_rows-IsUnique : IsUnique (λ t. t.request_id) two_rows
two_rows-IsUnique = (refl, (refl, tt))

patch_id : (t : Transfer) → t.request_id ≡ units "r2" → (to_requesting t).request_id ≡ units "r2"
patch_id t e = e

abbrev entry : HistoryEntry
entry = record {
  request_id = units "r1";
  message_id = [];
  attachment_id = [];
  file_name = [];
  size_bytes = none;
  from_user_id = [];
  to_user_id = [];
  direction = download;
  status = completed;
  saved_path = none;
  is_inaccessible = false;
  server_signing_pubkey = none;
}

abbrev waiting_entry : ℕ → QueuedDownloadRequest
waiting_entry n = record {
  request_id = n ∷ [];
  message_id = [];
  attachment_id = [];
  from_user_id = units "ann";
  to_user_id = units "bob";
  file_name = [];
  size_bytes = some n;
  preferred_peer_user_id = none;
}

take_smallest-IsFirstSmallest_example :
    IsFirstSmallest
      (waiting_entry 5 ∷ waiting_entry 3 ∷ [])
      (waiting_entry 3)
      (waiting_entry 5 ∷ [])
unfolding take_smallest
take_smallest-IsFirstSmallest_example =
    take_smallest-IsFirstSmallest (waiting_entry 5) (waiting_entry 3 ∷ [])

-- Two downloads run, and one waits.
abbrev busy : Downloads
busy = record {
  transfers = two_rows;
  seen = two_rows;
  history = [];
  queue = waiting_entry 3 ∷ [];
  requests = [];
  timers = 0;
}

try_start-within_limit_example :
    active_count (try_start_next_queued_download busy).transfers ≤ max_parallel_downloads
unfolding active_count
try_start-within_limit_example = try_start-within_limit busy refl (omega arith)

abbrev song : AttachmentMeta
song = record {
  attachment_id = units "a1";
  file_name = units "song.mp3";
  extension = units "mp3";
  size_bytes = 100;
  sha256 = units "f0";
  spoiler = false;
  preview_path = none;
}

abbrev song_message : ChatMessage
song_message = record {
  id = units "m1";
  signing_pubkey = units "k1";
  chat_id = units "c1";
  from_user_id = units "ann";
  body = units "song.mp3";
  content = attachment song;
  sent_at = [];
  local_only = false;
  delivery_status = none;
  delivered_by = none;
  bundling_progress = none;
  encrypted_payload = none;
}

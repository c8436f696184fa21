-- ===== src/Transfers/Upload/Session.antt =====
-- An upload session, and what its pump does in a round: the reads and the cache, the chunks that a
-- subscriber is sent, and which cached blocks go, of startUploadSessionPump in
-- src/contexts/EphemeralMessagesContext.tsx.
use cordia.Base.{
  Bool, Dict, List, Option, Str, [], any, false, if◌then◌else◌, keep, leb, length, lookup, ltb, min,
  nat_eq, none, not, put, some, str_eq, suc, true, zero, ℕ, ◌&&◌, ◌*◌, ◌++◌, ◌+◌, ◌-◌, ◌||◌, ◌∷◌,
}
use cordia.Transfers.Stream.{Bytes}

-- `sent` holds the bytes of the chunks that were sent.
pub record Subscriber : Type 0 where
  pub request_id : Str
  pub to_user_id : Str
  pub channel_open : Bool
  pub ready : Bool
  pub flow_paused : Bool
  pub next_offset : ℕ
  pub done : Bool
  pub sent : Bytes

-- The pump is at the head of its loop, waits for a read, or has returned.
pub data Phase : Type 0 where
  at_head reading returned : Phase

-- `finished` holds the subscribers that were sent `done`.
pub record UploadSession : Type 0 where
  pub attachment_id : Str
  pub file_name : Str
  pub sha256 : Str
  pub total_bytes : ℕ
  pub chunk_size : ℕ
  pub cache : Dict ℕ Bytes
  pub cache_bytes : ℕ
  pub next_read_offset : ℕ
  pub eof : Bool
  pub phase : Phase
  pub subscribers : Dict Str Subscriber
  pub finished : List Subscriber

abbrev pub max_upload_cache_bytes : ℕ
max_upload_cache_bytes = 2 * 1024 * 1024

abbrev pub max_burst : ℕ
max_burst = 12

abbrev pub new_subscriber : Str → Str → Subscriber
new_subscriber request_id to_user_id = record {
  request_id = request_id;
  to_user_id = to_user_id;
  channel_open = true;
  ready = false;
  flow_paused = false;
  next_offset = 0;
  done = false;
  sent = [];
}

-- getOrCreateUploadSession, where there is no session yet, with its first subscriber.
unfoldable pub new_session : Str → Str → Str → ℕ → Str → Str → UploadSession
new_session attachment_id file_name sha256 size_bytes request_id to_user_id = record {
  attachment_id = attachment_id;
  file_name = file_name;
  sha256 = sha256;
  total_bytes = size_bytes;
  chunk_size = 64 * 1024;
  cache = [];
  cache_bytes = 0;
  next_read_offset = 0;
  eof = false;
  phase = at_head;
  subscribers = (request_id, new_subscriber request_id to_user_id) ∷ [];
  finished = [];
}

unfoldable pub wants_block : UploadSession → Str × Subscriber → Bool
wants_block s (id, sub) =
    not sub.done && sub.ready && leb s.next_read_offset sub.next_offset && not s.eof

-- A block is read if a subscriber needs data beyond the cache, and the cache is not full.
unfoldable pub wants_read : UploadSession → Bool
wants_read s = any (wants_block s) s.subscribers && ltb s.cache_bytes max_upload_cache_bytes

-- The read's result; an empty block is the end of the file.
unfoldable pub store : Bytes → UploadSession → UploadSession
store [] s = record s { eof = true }
store (b ∷ block) s = record s {
  cache = put s.next_read_offset (b ∷ block) s.cache;
  cache_bytes = s.cache_bytes + length (b ∷ block);
  next_read_offset = s.next_read_offset + length (b ∷ block);
}

abbrev pub is_cached : Option Bytes → Bool
is_cached none = false
is_cached (some chunk) = true

-- dc.send(chunk)
abbrev pub advance : Option Bytes → Subscriber → Subscriber
advance none sub = sub
advance (some chunk) sub = record sub {
  sent = sub.sent ++ chunk;
  next_offset = sub.next_offset + length chunk;
}

-- The loop that sends cached chunks to one subscriber, `left` chunks at most.
unfoldable pub burst : (ℕ → Bool) → Dict ℕ Bytes → ℕ → Subscriber → Subscriber
burst room cache zero sub = sub
burst room cache (suc left) sub =
    let chunk = lookup sub.next_offset cache in
    let next = burst room cache left (advance chunk sub) in
    if not sub.flow_paused && sub.channel_open && room left && is_cached chunk then next else sub

unfoldable pub complete : Bool → ℕ → Subscriber → Subscriber
complete eof total sub =
    if eof && leb total sub.next_offset && sub.channel_open then record sub { done = true } else sub

-- One subscriber's turn: a burst, and `done` once all is sent.
unfoldable pub serve : (ℕ → Bool) → UploadSession → Subscriber → Subscriber
serve room s sub =
    if sub.done || not sub.ready || not sub.channel_open
    then sub
    else complete s.eof s.total_bytes (burst room s.cache max_burst sub)

-- The loop over the subscribers; one that is done is removed.
unfoldable pub serve_all :
    (Str → ℕ → Bool) → UploadSession → Dict Str Subscriber → Dict Str Subscriber × List Subscriber
serve_all room s [] = ([], [])
serve_all room s ((id, sub) ∷ subs) =
    let served = serve (room id) s sub in
    let rest = serve_all room s subs in
    if served.done then (rest.0, served ∷ rest.1) else ((id, served) ∷ rest.0, rest.1)

-- The least offset of the subscribers, if there are any.
unfoldable pub least_offset : Dict Str Subscriber → Option ℕ
least_offset [] = none
least_offset ((id, sub) ∷ subs) = elim (least_offset subs) [
  | none ↦ some sub.next_offset
  | some n ↦ some (min sub.next_offset n)
]

-- A block that all subscribers have passed.
abbrev pub is_passed : ℕ → ℕ × Bytes → Bool
is_passed least (offset, block) = leb (offset + length block) least

unfoldable pub evicted_bytes : ℕ → Dict ℕ Bytes → ℕ
evicted_bytes least [] = 0
evicted_bytes least ((offset, block) ∷ cache) =
    (if is_passed least (offset, block) then length block else 0) + evicted_bytes least cache

unfoldable pub evict : UploadSession → Option ℕ → UploadSession
evict s none = record s { cache = []; cache_bytes = 0; phase = returned }
evict s (some least) = record s {
  cache = keep (λ b. not (is_passed least b)) s.cache;
  cache_bytes = s.cache_bytes - evicted_bytes least s.cache;
  phase = at_head;
}

-- ===== src/Transfers/Upload.antt =====
-- One upload session of src/contexts/EphemeralMessagesContext.tsx: the subscribers that fetch one
-- attachment share its reads and its cache, and the pump `runSession` serves them round by round.
-- A round runs to its `await`; what comes next is an event. Whether a channel's send buffer has
-- room for the next chunk is told by the event, for each subscriber and each chunk of its burst.
-- A `send` on an open channel succeeds. Progress and speeds are left out.
mod Session
pub mod Turn
pub mod Sent
pub mod Faithful
pub mod Served
pub mod Starved
mod Tests
unfoldable pub use Session.*
use cordia.Base.{
  Bool, Dict, List, Option, Str, [], any, false, if◌then◌else◌, keep, leb, length, lookup, ltb, min,
  nat_eq, none, not, put, remove, some, str_eq, suc, true, zero, ℕ, ◌&&◌, ◌*◌, ◌++◌, ◌+◌, ◌-◌, ◌==◌,
  ◌||◌, ◌∷◌,
}
use cordia.Transfers.Stream.{Bytes}

-- The round after the read.
unfoldable pub deliver : (Str → ℕ → Bool) → UploadSession → UploadSession
deliver room s =
    let (left, done) = serve_all room s s.subscribers in
    evict (record s { subscribers = left; finished = done ++ s.finished }) (least_offset left)

-- A failed read, or the idle timeout, fails every subscriber.
unfoldable pub fail_all : UploadSession → UploadSession
fail_all s = record s { cache = []; cache_bytes = 0; phase = returned; subscribers = [] }

-- Up to the read, or a round without one.
unfoldable pub head : (Str → ℕ → Bool) → UploadSession → UploadSession
head room s = if wants_read s then record s { phase = reading } else deliver room s

unfoldable pub read_ends : (Str → ℕ → Bool) → Option Bytes → UploadSession → UploadSession
read_ends room none s = fail_all s
read_ends room (some block) s = deliver room (store block s)

abbrev pub update : (Subscriber → Subscriber) → Str → Dict Str Subscriber → Dict Str Subscriber
update f id [] = []
update f id ((k, sub) ∷ subs) =
    let rest = update f id subs in if k == id then (k, f sub) ∷ rest else (k, sub) ∷ rest

-- A session that has lost its last subscriber is gone: the next request makes another one.
unfoldable pub subscribe : Str → Str → UploadSession → Dict Str Subscriber → UploadSession
subscribe id user s [] = s
subscribe id user s (b ∷ subs) = record s {
  subscribers = put id (new_subscriber id user) (b ∷ subs);
}

-- A request joins, its channel opens or closes, the receiver pauses or resumes, the pump runs.
pub data UploadEvent : Type 0 where
  join : Str → Str → UploadEvent
  opened paused resumed left_by : Str → UploadEvent
  runs : (Str → ℕ → Bool) → UploadEvent
  read : (Str → ℕ → Bool) → Option Bytes → UploadEvent
  timeout : UploadEvent

unfoldable pub pump : (Str → ℕ → Bool) → UploadSession → Phase → UploadSession
pump room s at_head = head room s
pump room s _ = s

unfoldable pub resume_read : (Str → ℕ → Bool) → Option Bytes → UploadSession → Phase → UploadSession
resume_read room result s reading = read_ends room result s
resume_read room result s _ = s

unfoldable pub expire : UploadSession → Phase → UploadSession
expire s at_head = fail_all s
expire s _ = s

-- `opened` starts the pump again if it has returned.
unfoldable pub restart : Phase → Phase
restart returned = at_head
restart phase = phase

unfoldable pub upload_step : UploadEvent → UploadSession → UploadSession
upload_step (join id user) s = subscribe id user s s.subscribers
upload_step (opened id) s = record s {
  subscribers = update (λ sub. record sub { ready = true }) id s.subscribers;
  phase = restart s.phase;
}
upload_step (paused id) s = record s {
  subscribers = update (λ sub. record sub { flow_paused = true }) id s.subscribers;
}
upload_step (resumed id) s = record s {
  subscribers = update (λ sub. record sub { flow_paused = false }) id s.subscribers;
}
upload_step (left_by id) s = record s { subscribers = remove id s.subscribers }
upload_step (runs room) s = pump room s s.phase
upload_step (read room result) s = resume_read room result s s.phase
upload_step timeout s = expire s s.phase

unfoldable pub upload_run : List UploadEvent → UploadSession → UploadSession
upload_run [] s = s
upload_run (e ∷ es) s = upload_run es (upload_step e s)

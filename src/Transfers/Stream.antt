-- ===== src/Transfers/Stream.antt =====
-- One download in src/contexts/EphemeralMessagesContext.tsx: the data channel's `onmessage`, and the
-- ends of the writer's native calls. Events of the environment (a message, the end of a native
-- call) come in any order.
mod WriterLoop
pub mod Batch
pub mod Content
pub mod Wake
pub mod Schedule
pub mod Flow
pub mod Delivery
pub mod Stall
pub mod Drain
pub mod Frame
pub mod Fed
pub mod Carried
pub mod Tests
unfoldable pub use WriterLoop.*
use cordia.Base.{
  Bool, List, Option, [], false, if◌then◌else◌, leb, length, nat_eq, none, not, some, str_eq, true,
  ℕ, ◌&&◌, ◌*◌, ◌++◌, ◌+◌, ◌∷◌,
}

-- The `meta` message: a new stream state. A sender sends it once, first.
pub on_meta : ℕ → Download
on_meta size = record {
  stream = some (record {
    expected = size;
    received_bytes = 0;
    written_bytes = 0;
    pending = [];
    pending_bytes = 0;
    started = true;
    done_received = false;
    writer_running = false;
    flow_pause_sent = false;
  });
  channel_open = true;
  writer = idle;
  status = transferring;
  disk = [];
  arrived = [];
  sent = [];
}

-- Sends `flow_pause` when too much is pending.
pub pause : Bool → Download → StreamState → Download × StreamState
pause sends d st =
    if not st.flow_pause_sent && leb max_pending_bytes st.pending_bytes && d.channel_open && sends
    then (record d { sent = flow_pause ∷ d.sent }, record st { flow_pause_sent = true })
    else (d, st)

pub accept : Bool → Bytes → Download → StreamState → Download
accept sends chunk d st =
    let n = length chunk in
    let grown = record st {
      received_bytes = st.received_bytes + n;
      pending = st.pending ++ chunk ∷ [];
      pending_bytes = st.pending_bytes + n;
    } in
    let (d', st') = pause sends (record d { arrived = d.arrived ++ chunk }) grown in
    record d' { stream = some st' }

pub chunk_of : Bool → Bytes → Download → Option StreamState → Download
chunk_of sends chunk d none = d
chunk_of sends chunk d (some st) =
    if st.started then start_writer sends (wake (accept sends chunk d st)) else d

-- A binary message.
pub on_chunk : Bool → Bytes → Download → Download
on_chunk sends chunk d = chunk_of sends chunk d d.stream

pub done_of : Download → Option StreamState → Download
done_of d none = fail d
done_of d (some st) =
    if st.started
    then wake (record d { stream = some (record st { done_received = true }) })
    else fail d

-- The `done` message.
pub on_done : Download → Download
on_done d = done_of d d.stream

-- The writer returns: `finally` clears its mark.
pub return : Download → Download
return d = elim d.stream [
  | none ↦ record d { writer = idle }
  | some st ↦ record d { writer = idle; stream = some (record st { writer_running = false }) }
]

-- `writeDownloadStreamChunk` ends well: the batch is on disk, and the loop goes on.
pub stored : Bytes → Download → Option StreamState → Download
stored out d none = record d { writer = idle; disk = d.disk ++ out }
stored out d (some st) = record d {
  stream = some (record st { written_bytes = st.written_bytes + length out });
  writer = looping;
  disk = d.disk ++ out;
}

-- It fails; a transfer that is gone is left alone.
pub refused : Download → Option StreamState → Download
refused d none = return d
refused d (some st) = return (fail d)

pub write_ends : Bool → Bytes → Download → Download
write_ends ok out d = if ok then stored out d d.stream else refused d d.stream

pub finish_of : Download → Option StreamState → Download
finish_of d none = return d
finish_of d (some st) = return (cleanup (record d { status = completed }))

-- `finishDownloadStream` ends.
pub finish_ends : Bool → Download → Download
finish_ends ok d = if ok then finish_of d d.stream else refused d d.stream

-- The Booleans tell whether a native call, or `dc.send`, succeeds.
pub data Event : Type 0 where
  chunk : Bool → Bytes → Event
  begun : Bool → Bool → Event
  round : Bool → Event
  done close cancel : Event
  written finished : Bool → Event

-- The next round is due only while the loop stands at its head.
pub round_due : Bool → Download → Writer → Download
round_due sends d looping = turn sends d
round_due sends d _ = d

pub write_due : Bool → Download → Writer → Download
write_due ok d (writing out) = write_ends ok out d
write_due ok d _ = d

pub finish_due : Bool → Download → Writer → Download
finish_due ok d finishing = finish_ends ok d
finish_due ok d _ = d

pub step : Event → Download → Download
step (chunk sends bytes) d = on_chunk sends bytes d
step (begun sends ok) d = if ok then start_writer sends d else fail d
step (round sends) d = round_due sends d d.writer
step done d = on_done d
step close d = record d { channel_open = false }
step cancel d = cleanup (record d { status = cancelled })
step (written ok) d = write_due ok d d.writer
step (finished ok) d = finish_due ok d d.writer

pub run : List Event → Download → Download
run [] d = d
run (e ∷ es) d = run es (step e d)

-- ===== src/Transfers/Stream/WriterLoop.antt =====
-- The state of a download and its writer loop: `startDownloadWriter` and `cleanupTransferPeer` of
-- src/contexts/EphemeralMessagesContext.tsx, each up to its next `await`.
use cordia.Base.{
  Bool, List, Option, [], drop, eqb, false, if◌then◌else◌, leb, length, min, nat_eq, none, not,
  replicate, some, str_eq, suc, take, true, zero, ℕ, ◌&&◌, ◌*◌, ◌++◌, ◌-◌, ◌||◌, ◌∷◌,
}

-- A `Uint8Array`.
abbrev pub Bytes : Type 0
Bytes = List ℕ

pub record StreamState : Type 0 where
  pub expected : ℕ
  pub received_bytes : ℕ
  pub written_bytes : ℕ
  pub pending : List Bytes
  pub pending_bytes : ℕ
  pub started : Bool
  pub done_received : Bool
  pub writer_running : Bool
  pub flow_pause_sent : Bool

pub data Control : Type 0 where
  flow_pause flow_resume : Control

-- Where the writer loop stands: not running, about to run a round, waiting to be woken, in
-- `writeDownloadStreamChunk` with a batch, or in `finishDownloadStream`.
pub data Writer : Type 0 where
  idle looping waiting finishing : Writer
  writing : Bytes → Writer

pub data Outcome : Type 0 where
  transferring completed failed cancelled : Outcome

-- `disk` holds what the native side has written, `arrived` the bytes of all chunks since `meta`,
-- and `sent` the control messages since `meta`, the last one first.
pub record Download : Type 0 where
  pub stream : Option StreamState
  pub channel_open : Bool
  pub writer : Writer
  pub status : Outcome
  pub disk : Bytes
  pub arrived : Bytes
  pub sent : List Control

abbrev pub max_pending_bytes : ℕ
max_pending_bytes = 1024 * 1024

abbrev pub resume_pending_bytes : ℕ
resume_pending_bytes = 512 * 1024

abbrev pub target_batch_bytes : ℕ
target_batch_bytes = 512 * 1024

-- Wakes the writer: its next round is due.
unfoldable pub wake : Download → Download
wake d = elim d.writer [ waiting ↦ record d { writer = looping } | _ ↦ d ]

-- cleanupTransferPeer, as far as it touches a download; a waiting writer is woken.
unfoldable pub cleanup : Download → Download
cleanup d = wake (record d { stream = none; channel_open = false })

-- The error path of the handlers: the row turns to `failed`, and the peer is cleaned up.
unfoldable pub fail : Download → Download
fail d = cleanup (record d { status = failed })

-- Step 1 of a round: sends `flow_resume` once little is pending. `sends` tells whether `dc.send`
-- succeeds; a failure is caught.
unfoldable pub resume : Bool → Download → StreamState → Download × StreamState
resume sends d st =
    if st.flow_pause_sent && leb st.pending_bytes resume_pending_bytes && d.channel_open && sends
    then (record d { sent = flow_resume ∷ d.sent }, record st { flow_pause_sent = false })
    else (d, st)

-- The loop that fills a batch of `remaining` bytes: the filled part, the chunks that are left, and
-- how many bytes could not be filled.
unfoldable pub fill : ℕ → List Bytes → Bytes × List Bytes × ℕ
fill zero chunks = ([], chunks, 0)
fill (suc r) [] = ([], [], suc r)
fill (suc r) (first ∷ chunks) =
    let rest = fill (suc r - length first) chunks in
    if leb (length first) (suc r)
    then (first ++ rest.0, rest.1, rest.2)
    else (take (suc r) first, drop (suc r) first ∷ chunks, 0)

-- Step 2: takes up to `target_batch_bytes` from the pending chunks. What the loop did not fill
-- stays zero, as in a new `Uint8Array`.
unfoldable pub take_batch : Download → StreamState → Download
take_batch d st =
    let size = min target_batch_bytes st.pending_bytes in
    let (out, left, missing) = fill size st.pending in
    record d {
      stream = some (record st { pending = left; pending_bytes = st.pending_bytes - size });
      writer = writing (out ++ replicate missing 0);
    }

-- With nothing pending the loop ends, or waits for a wake.
unfoldable pub when_empty : Download → StreamState → Download
when_empty d st = record d {
  stream = some st;
  writer = if st.done_received then finishing else waiting;
}

unfoldable pub round_on : Bool → Download → StreamState → Download
round_on sends d st =
    let (d', st') = resume sends d st in
    if eqb st'.pending_bytes 0 then when_empty d' st' else take_batch d' st'

unfoldable pub round_of : Bool → Download → Option StreamState → Download
round_of sends d none = record d { writer = idle }
round_of sends d (some st) =
    if st.started
    then round_on sends d st
    else record d { writer = idle; stream = some (record st { writer_running = false }) }

-- One round of the writer loop, up to its `await`.
unfoldable pub turn : Bool → Download → Download
turn sends d = round_of sends d d.stream

unfoldable pub start_of : Bool → Download → Option StreamState → Download
start_of sends d none = d
start_of sends d (some st) =
    if not st.started || st.writer_running
    then d
    else turn sends
        (record d { stream = some (record st { writer_running = true }); writer = looping })

-- startDownloadWriter: the first round runs at once.
unfoldable pub start_writer : Bool → Download → Download
start_writer sends d = start_of sends d d.stream

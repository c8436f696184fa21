-- ===== src/Transfers/Stream/Content.antt =====
-- What a download writes: the bytes that arrived, in order, none twice and none lost, for every
-- schedule of messages, native calls and failures.
use mathlib.Core.List.{append-nil, flatten}
use cordia.Base.{
  Bool, Bool-cases, Option, [], arith, eqb, eqb_iff, false, inl, inr, length, min, nat_eq, none,
  refl, some, str_eq, subst, sym, true, ◌++◌, ◌∙◌, ◌≡◌, ◌⊎◌,
}
use cordia.Transfers.Stream.Batch.{
  total, fill-flatten, fill-length, fill-total, fill-missing, total-eq-zero,
}
use cordia.Transfers.Stream.{
  Bytes, StreamState, Writer, idle, looping, finishing, writing, Outcome, completed, Download, fill,
  resume, pause, take_batch, when_empty, round_on, round_of, turn, start_of, start_writer,
  target_batch_bytes,
}

-- The batch that the native side has not yet taken.
abbrev pub in_flight : Writer → Bytes
in_flight (writing out) = out
in_flight _ = []

abbrev pub is_running : Writer → Bool
is_running idle = false
is_running _ = true

abbrev pub is_finishing : Writer → Bool
is_finishing finishing = true
is_finishing _ = false

abbrev pub is_completed : Outcome → Bool
is_completed completed = true
is_completed _ = false

-- A live stream: the counters count, the bytes that arrived are on disk, in flight or pending, in
-- this order, the mark of the writer tells whether it runs, and the file is finished only after
-- the `done` message, with nothing pending.
pub record IsSound (d : Download) (st : StreamState) : Type 0 where
  pub is_started : st.started ≡ true
  pub pending_total : st.pending_bytes ≡ total st.pending
  pub received_total : st.received_bytes ≡ length d.arrived
  pub written_total : st.written_bytes ≡ length d.disk
  pub marked : st.writer_running ≡ is_running d.writer
  pub drained :
      (is_finishing d.writer ≡ false) ⊎ ((flatten st.pending ≡ []) × (st.done_received ≡ true))
  pub unfinished : is_completed d.status ≡ false
  pub order : d.disk ++ (in_flight d.writer ++ flatten st.pending) ≡ d.arrived

resume-IsSound :
    (sends : Bool) (d : Download) (st : StreamState)
    → IsSound d st
    → IsSound (resume sends d st).0 (resume sends d st).1
unfolding resume
resume-IsSound sends d st h = ground arith

pub pause-IsSound :
    (sends : Bool) (d : Download) (st : StreamState)
    → IsSound d st
    → IsSound (pause sends d st).0 (pause sends d st).1
unfolding pause
pause-IsSound sends d st h = ground arith

-- A download whose stream is gone: if it is completed, the file has what arrived, and no writer runs.
abbrev pub IsWhole : Download → Type 0
IsWhole d = (is_completed d.status ≡ false) ⊎ ((d.disk ≡ d.arrived) × (is_running d.writer ≡ false))

abbrev pub Holds : Download → Option StreamState → Type 0
Holds d none = IsWhole d
Holds d (some st) = IsSound d st

-- A download is right: its stream is sound, or the file is whole.
abbrev pub IsRight : Download → Type 0
IsRight d = Holds d d.stream

take_batch-IsSound :
    (d : Download) (st : StreamState)
    → IsSound d st
    → in_flight d.writer ≡ []
    → is_running d.writer ≡ true
    → Holds (take_batch d st) (take_batch d st).stream
unfolding take_batch
take_batch-IsSound d st h idle_flight running =
    let size = min target_batch_bytes st.pending_bytes in
    let full : (fill size st.pending).2 ≡ 0 =
      fill-missing size st.pending (omega (arith, h.pending_total)) in
    rw full (record {
      is_started = h.is_started;
      pending_total =
          omega
            (arith, fill-length size st.pending, fill-total size st.pending, full, h.pending_total);
      received_total = h.received_total;
      written_total = h.written_total;
      marked = h.marked ∙ running;
      drained = inl refl;
      unfinished = h.unfinished;
      order = rw (append-nil, fill-flatten size st.pending) (rw idle_flight at h.order);
    })

when_empty-IsSound :
    (d : Download) (st : StreamState)
    → IsSound d st
    → in_flight d.writer ≡ []
    → is_running d.writer ≡ true
    → flatten st.pending ≡ []
    → Holds (when_empty d st) (when_empty d st).stream
unfolding when_empty
when_empty-IsSound d st h idle_flight running empty = record {
  is_started = h.is_started;
  pending_total = h.pending_total;
  received_total = h.received_total;
  written_total = h.written_total;
  marked = ground arith;
  drained = ground (arith, empty);
  unfinished = h.unfinished;
  order = elim (Bool-cases st.done_received) [
    | inl e ↦ rw e (rw idle_flight at h.order)
    | inr e ↦ rw e (rw idle_flight at h.order)
  ];
}

resume-writer :
    (sends : Bool) (d : Download) (st : StreamState) → (resume sends d st).0.writer ≡ d.writer
unfolding resume
resume-writer sends d st = ground arith

round_on-IsSound :
    (sends : Bool) (d : Download) (st : StreamState)
    → IsSound d st
    → in_flight d.writer ≡ []
    → is_running d.writer ≡ true
    → Holds (round_on sends d st) (round_on sends d st).stream
unfolding round_on
round_on-IsSound sends d st h idle_flight running =
    let d' = (resume sends d st).0 in
    let st' = (resume sends d st).1 in
    let h' = resume-IsSound sends d st h in
    let same = resume-writer sends d st in
    elim (Bool-cases (eqb st'.pending_bytes 0)) [
      | inl e ↦ rw e (
          when_empty-IsSound d' st' h' (rw same idle_flight) (rw same running) (
            total-eq-zero st'.pending
              (omega (arith, (eqb_iff st'.pending_bytes 0).0 e, h'.pending_total))))
      | inr e ↦ rw e (take_batch-IsSound d' st' h' (rw same idle_flight) (rw same running))
    ]

round_of-started :
    (sends : Bool) (d : Download) (st : StreamState)
    → st.started ≡ true
    → round_of sends d (some st) ≡ round_on sends d st
unfolding round_of
round_of-started sends d st e = ground arith

round_of-IsRight :
    (sends : Bool) (d : Download) (o : Option StreamState)
    → Holds d o
    → in_flight d.writer ≡ []
    → is_running d.writer ≡ true
    → o ≡ d.stream
    → IsRight (round_of sends d o)
round_of-IsRight sends d none h e r same =
    unfold round_of in subst (Holds (record d { writer = idle })) same (ground arith)
round_of-IsRight sends d (some st) h e r same =
    rw (round_of-started sends d st h.is_started) (round_on-IsSound sends d st h e r)

pub turn-IsRight :
    (sends : Bool) (d : Download)
    → IsRight d
    → in_flight d.writer ≡ []
    → is_running d.writer ≡ true
    → IsRight (turn sends d)
unfolding turn
turn-IsRight sends d h e r = round_of-IsRight sends d d.stream h e r refl

in_flight_of_idle : (w : Writer) → is_running w ≡ false → in_flight w ≡ []
in_flight_of_idle idle h = refl
in_flight_of_idle _ h = ground arith

-- The download as the first round of a new loop finds it.
started_loop : Download → StreamState → Download
started_loop d st = record d {
  stream = some (record st { writer_running = true });
  writer = looping;
}

start_of_cases :
    (sends : Bool) (d : Download) (st : StreamState)
    → (start_of sends d (some st) ≡ d)
      ⊎ ((st.writer_running ≡ false)
          × (start_of sends d (some st) ≡ turn sends (started_loop d st)))
unfolding start_of started_loop
start_of_cases sends d st = ground arith

started_loop-IsRight :
    (d : Download) (st : StreamState)
    → IsSound d st
    → st.writer_running ≡ false
    → IsRight (started_loop d st)
unfolding started_loop
started_loop-IsRight d st h stopped = record {
  is_started = h.is_started;
  pending_total = h.pending_total;
  received_total = h.received_total;
  written_total = h.written_total;
  marked = refl;
  drained = inl refl;
  unfinished = h.unfinished;
  order = rw (in_flight_of_idle d.writer (sym h.marked ∙ stopped)) at h.order;
}

start_of-IsRight :
    (sends : Bool) (d : Download) (o : Option StreamState)
    → Holds d o
    → o ≡ d.stream
    → IsRight (start_of sends d o)
unfolding start_of started_loop
start_of-IsRight sends d none h same = subst (Holds d) same h
start_of-IsRight sends d (some st) h same = elim (start_of_cases sends d st) [
  | inl e ↦ subst IsRight (sym e) (subst (Holds d) same h)
  | inr (stopped, e) ↦
      subst IsRight (sym e)
        (turn-IsRight sends (started_loop d st) (started_loop-IsRight d st h stopped) refl refl)
]

pub start_writer-IsRight :
    (sends : Bool) (d : Download) → IsRight d → IsRight (start_writer sends d)
unfolding start_writer
start_writer-IsRight sends d h = start_of-IsRight sends d d.stream h refl

-- ===== src/Transfers/Stream/Frame.antt =====
-- What the steps of a download leave as it is, beside its bytes.
use cordia.Base.{
  Bool, Bool-cases, Option, arith, false, inl, inr, nat_eq, none, not, refl, some, str_eq, true,
  ◌++◌, ◌||◌, ◌∙◌, ◌≡◌,
}
use cordia.Transfers.Stream.Content.{is_completed}
use cordia.Transfers.Stream.{
  Bytes, StreamState, Writer, looping, writing, cancelled, Download, begun, start_writer, start_of,
  turn, round_of, round_on, resume, take_batch, when_empty, wake, cleanup, fail, pause, accept,
  done_of, return, stored, refused, write_ends, finish_of, round_due, write_due, step,
}

abbrev pub IsOpenEnded : Option StreamState → Type 0
IsOpenEnded none = Unit
IsOpenEnded (some st) = st.done_received ≡ false

-- From `d` to `e` no byte arrives, nothing is completed, and a stream that is gone stays so.
abbrev pub Frame : Download → Download → Type 0
Frame d e =
    (e.arrived ≡ d.arrived)
    × (is_completed e.status ≡ true → is_completed d.status ≡ true)
    × (d.stream ≡ none → e.stream ≡ none)
    × (IsOpenEnded d.stream → IsOpenEnded e.stream)

pub Frame-trans : (d e f : Download) → Frame d e → Frame e f → Frame d f
Frame-trans d e f (a, b, c, p) (a', b', c', p') =
    (a' ∙ a, (λ h. b (b' h)), (λ h. c' (c h)), (λ h. p' (p h)))

pub wake-Frame : (d : Download) → Frame d (wake d)
unfolding wake
wake-Frame d = ground arith

pub fail-Frame : (d : Download) → Frame d (fail d)
unfolding fail cleanup wake
fail-Frame d = ground arith

pub return-Frame : (d : Download) → Frame d (return d)
unfolding return
return-Frame d = ground arith

pub round_on-Frame :
    (sends : Bool) (d : Download) (st : StreamState)
    → d.stream ≡ some st
    → Frame d (round_on sends d st)
unfolding round_on resume take_batch when_empty
round_on-Frame sends d st e = rw e (ground (arith, e))

pub round_of-Frame :
    (sends : Bool) (d : Download) (o : Option StreamState)
    → d.stream ≡ o
    → Frame d (round_of sends d o)
unfolding round_of
round_of-Frame sends d none e = rw e (ground (arith, e))
round_of-Frame sends d (some st) e = ground (arith, e, round_on-Frame sends d st e)

pub start_of-Frame :
    (sends : Bool) (d : Download) (o : Option StreamState)
    → d.stream ≡ o
    → Frame d (start_of sends d o)
unfolding start_of turn
start_of-Frame sends d none e = ground arith
start_of-Frame sends d (some st) e = elim (Bool-cases (not st.started || st.writer_running)) [
  | inl skip ↦ rw skip (ground arith)
  | inr go ↦
      let d' = record d { stream = some (record st { writer_running = true }); writer = looping } in
      rw go (
        Frame-trans d d' (turn sends d')
          (refl, (λ h. h), (λ n. absurd (ground (arith, n, e))), (rw e (λ h. h)))
          (round_of-Frame sends d' d'.stream refl))
]

pub stored-Frame :
    (out : Bytes) (d : Download) (o : Option StreamState) → d.stream ≡ o → Frame d (stored out d o)
unfolding stored
stored-Frame out d none e = ground (arith, e)
stored-Frame out d (some st) e = ground (arith, e)

pub refused-Frame : (d : Download) (o : Option StreamState) → Frame d (refused d o)
unfolding refused
refused-Frame d none = return-Frame d
refused-Frame d (some st) =
    Frame-trans d (fail d) (return (fail d)) (fail-Frame d) (return-Frame (fail d))

pub write_due-Frame : (ok : Bool) (d : Download) (w : Writer) → Frame d (write_due ok d w)
unfolding write_due write_ends
write_due-Frame true d (writing out) = stored-Frame out d d.stream refl
write_due-Frame false d (writing out) = refused-Frame d d.stream
write_due-Frame ok d _ = ground arith

pub round_due-Frame : (sends : Bool) (d : Download) (w : Writer) → Frame d (round_due sends d w)
unfolding round_due turn
round_due-Frame sends d looping = round_of-Frame sends d d.stream refl
round_due-Frame sends d _ = ground arith

pub finish_of_arrived :
    (d : Download) (st : StreamState) → (finish_of d (some st)).arrived ≡ d.arrived
unfolding finish_of return cleanup wake
finish_of_arrived d st = ground arith

pub done_of_cases :
    (d : Download) (o : Option StreamState)
    → ((done_of d o).arrived ≡ d.arrived)
      × (o ≡ none
          → d.stream ≡ o
          → ((done_of d o).stream ≡ none) × (is_completed (done_of d o).status ≡ false))
unfolding done_of fail cleanup wake
done_of_cases d none = ground arith
done_of_cases d (some st) = ground arith

pub cancelled-Frame : (d : Download) → Frame d (cleanup (record d { status = cancelled }))
unfolding cleanup wake
cancelled-Frame d = ground arith

pub begun-Frame : (sends ok : Bool) (d : Download) → Frame d (step (begun sends ok) d)
unfolding step start_writer
begun-Frame sends true d = start_of-Frame sends d d.stream refl
begun-Frame sends false d = fail-Frame d

pub wake_start-Frame : (sends : Bool) (d : Download) → Frame d (start_writer sends (wake d))
unfolding start_writer
wake_start-Frame sends d =
    Frame-trans d (wake d) (start_writer sends (wake d)) (wake-Frame d)
      (start_of-Frame sends (wake d) (wake d).stream refl)

pub accepted :
    (sends : Bool) (bytes : Bytes) (d : Download) (st : StreamState)
    → let e = accept sends bytes d st in
      (e.arrived ≡ d.arrived ++ bytes)
      × (e.status ≡ d.status)
      × (st.done_received ≡ false → IsOpenEnded e.stream)
unfolding accept pause
accepted sends bytes d st = ground arith

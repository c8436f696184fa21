-- ===== src/Transfers/Stream/Schedule.antt =====
-- A download under every schedule of messages, native calls and failures.
use cordia.Transfers.Stream.Wake.{IsSound-cong, accept-IsRight, wake-IsRight}
use mathlib.Core.List.{append_assoc, append-nil, flatten}
use cordia.Base.{
  Bool, List, Option, [], ap, arith, false, inl, inr, length-append, nat_eq, none, refl, some,
  str_eq, subst, sym, true, ℕ, ◌++◌, ◌∙◌, ◌∷◌, ◌≡◌,
}
use cordia.Transfers.Stream.Batch.{total}
use cordia.Transfers.Stream.Content.{
  IsSound, IsWhole, IsRight, Holds, in_flight, is_running, is_finishing, is_completed, turn-IsRight,
  start_writer-IsRight,
}
use cordia.Transfers.Stream.{
  Bytes, StreamState, Writer, idle, looping, finishing, writing, completed, failed, cancelled,
  Download, Event, chunk, begun, round, done, close, cancel, written, finished, start_writer, wake,
  cleanup, fail, accept, chunk_of, on_chunk, done_of, on_done, return, stored, refused, write_ends,
  finish_of, finish_ends, on_meta, round_due, write_due, finish_due, step, run,
}

-- Soundness reads the writer, the disk, the status and what arrived, and no other field.
-- No chunk follows the `done` message: the channel is ordered, and the sender sends `done` last.
abbrev pub Fits : Event → Option StreamState → Type 0
Fits (chunk sends bytes) (some st) = st.done_received ≡ false
Fits _ _ = Unit

abbrev pub IsOrdered : List Event → Download → Type 0
IsOrdered [] d = Unit
IsOrdered (e ∷ es) d = Fits e d.stream × IsOrdered es (step e d)

pub chunk_of-started :
    (sends : Bool) (bytes : Bytes) (d : Download) (st : StreamState)
    → st.started ≡ true
    → chunk_of sends bytes d (some st) ≡ start_writer sends (wake (accept sends bytes d st))
unfolding chunk_of
chunk_of-started sends bytes d st e = ground arith

chunk_of-IsRight :
    (sends : Bool) (bytes : Bytes) (d : Download) (o : Option StreamState)
    → Holds d o
    → o ≡ d.stream
    → Fits (chunk sends bytes) o
    → IsRight (chunk_of sends bytes d o)
chunk_of-IsRight sends bytes d none h same fits = unfold chunk_of in subst (Holds d) same h
chunk_of-IsRight sends bytes d (some st) h same fits =
    subst IsRight (sym (chunk_of-started sends bytes d st h.is_started))
      (start_writer-IsRight sends _ (wake-IsRight _ (accept-IsRight sends bytes d st h fits)))

-- A cleaned-up download whose row is not completed.
cleanup-IsRight : (d : Download) → is_completed d.status ≡ false → IsRight (cleanup d)
unfolding cleanup
cleanup-IsRight d h = wake-IsRight (record d { stream = none; channel_open = false }) (inl h)

fail-IsRight : (d : Download) → IsRight (fail d)
unfolding fail
fail-IsRight d = cleanup-IsRight (record d { status = failed }) refl

done_of-started :
    (d : Download) (st : StreamState)
    → st.started ≡ true
    → done_of d (some st) ≡ wake (record d { stream = some (record st { done_received = true }) })
unfolding done_of
done_of-started d st e = ground arith

done_of-IsRight : (d : Download) (o : Option StreamState) → Holds d o → IsRight (done_of d o)
done_of-IsRight d none h = unfold done_of in fail-IsRight d
done_of-IsRight d (some st) h = subst IsRight (sym (done_of-started d st h.is_started)) (
    wake-IsRight _ (record {
      is_started = h.is_started;
      pending_total = h.pending_total;
      received_total = h.received_total;
      written_total = h.written_total;
      marked = h.marked;
      drained = ground (arith, h.drained);
      unfinished = h.unfinished;
      order = h.order;
    }))

-- The writer returned: no stream is left.
return-IsRight :
    (d : Download) → d.stream ≡ none → IsWhole (record d { writer = idle }) → IsRight (return d)
unfolding return
return-IsRight d gone h =
    rw (gone, return) (subst (Holds (record d { writer = idle })) (sym gone) h)

cleanup_keeps :
    (d : Download)
    → ((cleanup d).stream ≡ none)
      × ((cleanup d).status ≡ d.status)
      × ((cleanup d).disk ≡ d.disk)
      × ((cleanup d).arrived ≡ d.arrived)
unfolding cleanup wake
cleanup_keeps d = ground arith

stored-IsRight :
    (out : Bytes) (d : Download) (o : Option StreamState)
    → Holds d o
    → o ≡ d.stream
    → d.writer ≡ writing out
    → IsRight (stored out d o)
unfolding stored
stored-IsRight out d none h same was =
    subst (Holds (record d { writer = idle; disk = d.disk ++ out })) same
      (ground (arith, ap is_running was))
stored-IsRight out d (some st) h same was = record {
  is_started = h.is_started;
  pending_total = h.pending_total;
  received_total = h.received_total;
  written_total = omega (arith, length-append d.disk out, h.written_total);
  marked = rw was at h.marked;
  drained = inl refl;
  unfinished = h.unfinished;
  order = append_assoc d.disk out (flatten st.pending) ∙ (rw was at h.order);
}

-- Nothing changes for a download that is whole when its writer returns.
IsWhole-idle : (d : Download) → IsWhole d → IsWhole (record d { writer = idle })
IsWhole-idle d h = ground arith

refused-IsRight :
    (d : Download) (o : Option StreamState) → Holds d o → o ≡ d.stream → IsRight (refused d o)
unfolding refused
refused-IsRight d none h same = return-IsRight d (sym same) (IsWhole-idle d h)
refused-IsRight d (some st) h same =
    let kept = cleanup_keeps (record d { status = failed }) in
    unfold fail in return-IsRight _ kept.0 (inl (ap is_completed kept.1))

-- The file is finished: all that arrived is on disk.
finished-IsWhole :
    (d : Download) (st : StreamState) → IsSound d st → d.writer ≡ finishing → d.disk ≡ d.arrived
finished-IsWhole d st h was = elim h.drained [
  | inl other ↦ absurd (ground (arith, ap is_finishing was))
  | inr (empty, _) ↦ sym (append-nil d.disk) ∙ (rw empty at (rw was at h.order))
]

finish_of-IsRight :
    (d : Download) (o : Option StreamState)
    → Holds d o
    → o ≡ d.stream
    → d.writer ≡ finishing
    → IsRight (finish_of d o)
unfolding finish_of
finish_of-IsRight d none h same was = return-IsRight d (sym same) (IsWhole-idle d h)
finish_of-IsRight d (some st) h same was =
    let (gone, _, disk, arrived) = cleanup_keeps (record d { status = completed }) in
    return-IsRight _ gone (inr (disk ∙ finished-IsWhole d st h was ∙ sym arrived, refl))

round_due-IsRight :
    (sends : Bool) (d : Download) (w : Writer)
    → IsRight d
    → w ≡ d.writer
    → IsRight (round_due sends d w)
unfolding round_due
round_due-IsRight sends d looping h e =
    turn-IsRight sends d h (ap in_flight (sym e)) (ap is_running (sym e))
round_due-IsRight sends d _ h e = h

write_due-IsRight :
    (ok : Bool) (d : Download) (w : Writer) → IsRight d → w ≡ d.writer → IsRight (write_due ok d w)
unfolding write_due write_ends
write_due-IsRight true d (writing out) h e = stored-IsRight out d d.stream h refl (sym e)
write_due-IsRight false d (writing out) h e = refused-IsRight d d.stream h refl
write_due-IsRight _ d _ h e = h

finish_due-IsRight :
    (ok : Bool) (d : Download) (w : Writer) → IsRight d → w ≡ d.writer → IsRight (finish_due ok d w)
unfolding finish_due finish_ends
finish_due-IsRight true d finishing h e = finish_of-IsRight d d.stream h refl (sym e)
finish_due-IsRight false d finishing h e = refused-IsRight d d.stream h refl
finish_due-IsRight _ d _ h e = h

close-IsRight : (d : Download) → IsRight d → IsRight (record d { channel_open = false })
close-IsRight d h = go d.stream h
  where
    go : (o : Option StreamState) → Holds d o → Holds (record d { channel_open = false }) o
    go none k = k
    go (some st) k = IsSound-cong d _ st refl refl refl refl k

pub step-IsRight : (e : Event) (d : Download) → IsRight d → Fits e d.stream → IsRight (step e d)
unfolding step on_chunk on_done
step-IsRight (chunk sends bytes) d h f = chunk_of-IsRight sends bytes d d.stream h refl f
step-IsRight (begun sends true) d h f = start_writer-IsRight sends d h
step-IsRight (begun sends false) d h f = fail-IsRight d
step-IsRight (round sends) d h f = round_due-IsRight sends d d.writer h refl
step-IsRight done d h f = done_of-IsRight d d.stream h
step-IsRight close d h f = close-IsRight d h
step-IsRight cancel d h f = cleanup-IsRight (record d { status = cancelled }) refl
step-IsRight (written ok) d h f = write_due-IsRight ok d d.writer h refl
step-IsRight (finished ok) d h f = finish_due-IsRight ok d d.writer h refl

pub on_meta-IsRight : (size : ℕ) → IsRight (on_meta size)
unfolding on_meta total flatten
on_meta-IsRight size = record {
  is_started = refl;
  pending_total = refl;
  received_total = refl;
  written_total = refl;
  marked = refl;
  drained = inl refl;
  unfinished = refl;
  order = refl;
}

run-IsRight_from :
    (es : List Event) (d : Download) → IsRight d → IsOrdered es d → IsRight (run es d)
unfolding run
run-IsRight_from [] d h o = h
run-IsRight_from (e ∷ es) d h o = run-IsRight_from es (step e d) (step-IsRight e d h o.0) o.1

-- From the `meta` message on, for every schedule in which no chunk follows `done`: while the
-- stream is there, its counters count what they name, and the bytes that arrived are those on
-- disk, then those in flight, then those pending; once it is gone, a completed download has on
-- disk exactly what arrived.
pub run-IsRight :
    (size : ℕ) (es : List Event) → IsOrdered es (on_meta size) → IsRight (run es (on_meta size))
run-IsRight size es o = run-IsRight_from es (on_meta size) (on_meta-IsRight size) o

pub completed_of_right :
    (d : Download) (o : Option StreamState) → Holds d o → d.status ≡ completed → d.disk ≡ d.arrived
completed_of_right d none h e = ground (arith, ap is_completed e)
completed_of_right d (some st) h e = absurd (ground (arith, h.unfinished, ap is_completed e))

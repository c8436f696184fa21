-- ===== src/Transfers/Stream/Delivery.antt =====
-- Flow control under every schedule: the sender is paused before too much is pending, and never
-- left paused by a writer that waits, as long as every `send` succeeds.
use cordia.Base.{
  All, Bool, List, Option, [], arith, false, inl, inr, nat_eq, none, refl, some, str_eq, subst, sym,
  true, ℕ, ◌<◌, ◌∷◌, ◌≡◌, ◌⊎◌,
}
use cordia.Transfers.Stream.{
  Bytes, StreamState, Writer, looping, finishing, writing, Download, Event, chunk, begun, round,
  done, close, cancel, written, finished, pause, start_writer, wake, cleanup, fail, accept,
  chunk_of, on_chunk, done_of, on_done, return, stored, refused, write_ends, finish_of, finish_ends,
  on_meta, round_due, write_due, finish_due, step, run, max_pending_bytes,
}
use cordia.Transfers.Stream.Flow.{
  is_paused, IsFlowing, Flows, IsFluent, IsCalm, IsCalm-of_IsFluent, turn-IsFluent,
  start_writer-IsFluent, wake-IsFluent,
}

-- Every `send` succeeds, and the channel stays open.
abbrev pub Delivers : Event → Type 0
Delivers (chunk sends bytes) = sends ≡ true
Delivers (begun sends ok) = sends ≡ true
Delivers (round sends) = sends ≡ true
Delivers close = ⊥
Delivers _ = Unit

pause_facts :
    (d : Download) (st : StreamState)
    → d.channel_open ≡ true
    → is_paused d.sent ≡ st.flow_pause_sent
    → ((pause true d st).0.channel_open ≡ true)
      × (is_paused (pause true d st).0.sent ≡ (pause true d st).1.flow_pause_sent)
      × (((pause true d st).1.flow_pause_sent ≡ true)
          ⊎ ((pause true d st).1.pending_bytes < max_pending_bytes))
unfolding pause
pause_facts d st o l = ground arith

accept-IsCalm :
    (bytes : Bytes) (d : Download) (st : StreamState)
    → IsFlowing d st
    → IsCalm (accept true bytes d st) (accept true bytes d st).stream
unfolding accept
accept-IsCalm bytes d st h = pause_facts _ _ h.open_channel h.told

chunk_of_cases :
    (bytes : Bytes) (d : Download) (st : StreamState)
    → (chunk_of true bytes d (some st) ≡ d)
      ⊎ (chunk_of true bytes d (some st) ≡ start_writer true (wake (accept true bytes d st)))
unfolding chunk_of
chunk_of_cases bytes d st = ground arith

chunk_of-IsFluent :
    (bytes : Bytes) (d : Download) (o : Option StreamState)
    → o ≡ d.stream
    → Flows d o
    → IsFluent (chunk_of true bytes d o)
chunk_of-IsFluent bytes d none e h = unfold chunk_of in subst (Flows d) e h
chunk_of-IsFluent bytes d (some st) e h = elim (chunk_of_cases bytes d st) [
  | inl early ↦ subst IsFluent (sym early) (subst (Flows d) e h)
  | inr runs ↦
      subst IsFluent (sym runs)
        (start_writer-IsFluent _ (wake-IsFluent _ (accept-IsCalm bytes d st h)))
]

IsFluent-of_gone : (d : Download) → d.stream ≡ none → IsFluent d
IsFluent-of_gone d e = subst (Flows d) (sym e) tt

cleanup_gone : (d : Download) → (cleanup d).stream ≡ none
unfolding cleanup wake
cleanup_gone d = ground arith

return_gone : (d : Download) → d.stream ≡ none → (return d).stream ≡ none
unfolding return
return_gone d e = rw (e, return) e

done_of_cases :
    (d : Download) (st : StreamState)
    → (done_of d (some st) ≡ fail d)
      ⊎ (done_of d (some st)
          ≡ wake (record d { stream = some (record st { done_received = true }) }))
unfolding done_of
done_of_cases d st = ground arith

fail-IsFluent : (d : Download) → IsFluent (fail d)
unfolding fail
fail-IsFluent d = IsFluent-of_gone _ (cleanup_gone _)

done_of-IsFluent : (d : Download) (o : Option StreamState) → Flows d o → IsFluent (done_of d o)
done_of-IsFluent d none h = unfold done_of in fail-IsFluent d
done_of-IsFluent d (some st) h = elim (done_of_cases d st) [
  | inl broken ↦ subst IsFluent (sym broken) (fail-IsFluent d)
  | inr marks ↦ subst IsFluent (sym marks) (wake-IsFluent _ (h.open_channel, h.told, h.calm))
]

refused-IsFluent : (d : Download) (o : Option StreamState) → o ≡ d.stream → IsFluent (refused d o)
unfolding refused fail
refused-IsFluent d none e = IsFluent-of_gone _ (return_gone d (sym e))
refused-IsFluent d (some st) e = IsFluent-of_gone _ (return_gone _ (cleanup_gone _))

stored-IsFluent :
    (out : Bytes) (d : Download) (o : Option StreamState)
    → o ≡ d.stream
    → Flows d o
    → IsFluent (stored out d o)
unfolding stored
stored-IsFluent out d none e h = IsFluent-of_gone _ (sym e)
stored-IsFluent out d (some st) e h = record {
  open_channel = h.open_channel;
  told = h.told;
  calm = h.calm;
  awake = inl refl;
}

finish_of-IsFluent :
    (d : Download) (o : Option StreamState) → o ≡ d.stream → IsFluent (finish_of d o)
unfolding finish_of
finish_of-IsFluent d none e = IsFluent-of_gone _ (return_gone d (sym e))
finish_of-IsFluent d (some st) e = IsFluent-of_gone _ (return_gone _ (cleanup_gone _))

round_due-IsFluent : (d : Download) (w : Writer) → IsFluent d → IsFluent (round_due true d w)
unfolding round_due
round_due-IsFluent d looping h = turn-IsFluent d (IsCalm-of_IsFluent d d.stream h)
round_due-IsFluent d _ h = h

write_due-IsFluent :
    (ok : Bool) (d : Download) (w : Writer) → IsFluent d → IsFluent (write_due ok d w)
unfolding write_due write_ends
write_due-IsFluent true d (writing out) h = stored-IsFluent out d d.stream refl h
write_due-IsFluent false d (writing out) h = refused-IsFluent d d.stream refl
write_due-IsFluent _ d _ h = h

finish_due-IsFluent :
    (ok : Bool) (d : Download) (w : Writer) → IsFluent d → IsFluent (finish_due ok d w)
unfolding finish_due finish_ends
finish_due-IsFluent true d finishing h = finish_of-IsFluent d d.stream refl
finish_due-IsFluent false d finishing h = refused-IsFluent d d.stream refl
finish_due-IsFluent _ d _ h = h

step-IsFluent : (e : Event) (d : Download) → IsFluent d → Delivers e → IsFluent (step e d)
unfolding step on_chunk on_done fail
step-IsFluent (chunk true bytes) d h f = chunk_of-IsFluent bytes d d.stream refl h
step-IsFluent (chunk false bytes) d h f = absurd (cc)
step-IsFluent (begun true true) d h f = start_writer-IsFluent d h
step-IsFluent (begun true false) d h f = IsFluent-of_gone _ (cleanup_gone _)
step-IsFluent (begun false ok) d h f = absurd (cc)
step-IsFluent (round true) d h f = round_due-IsFluent d d.writer h
step-IsFluent (round false) d h f = absurd (cc)
step-IsFluent done d h f = done_of-IsFluent d d.stream h
step-IsFluent close d h f = absurd f
step-IsFluent cancel d h f = IsFluent-of_gone _ (cleanup_gone _)
step-IsFluent (written ok) d h f = write_due-IsFluent ok d d.writer h
step-IsFluent (finished ok) d h f = finish_due-IsFluent ok d d.writer h

run-IsFluent_from :
    (es : List Event) (d : Download) → IsFluent d → All Delivers es → IsFluent (run es d)
unfolding run
run-IsFluent_from [] d h f = h
run-IsFluent_from (e ∷ es) d h f = run-IsFluent_from es (step e d) (step-IsFluent e d h f.0) f.1

on_meta-IsFluent : (size : ℕ) → IsFluent (on_meta size)
unfolding on_meta
on_meta-IsFluent size = record {
  open_channel = refl;
  told = refl;
  calm = inr (omega arith);
  awake = inl refl;
}

-- While every `send` succeeds and the channel is open, in every schedule, where the stream is there:
-- its mark tells whether the last control message sent was a pause; unless it was, less than the
-- limit is pending; and while the writer waits for bytes, it was not.
pub run-IsFluent : (size : ℕ) (es : List Event) → All Delivers es → IsFluent (run es (on_meta size))
run-IsFluent size es f = run-IsFluent_from es (on_meta size) (on_meta-IsFluent size) f

-- ===== src/Transfers/Stream/Fed.antt =====
-- The bytes that a download was brought, step by step.
use cordia.Base.{
  Bool, Option, ap, arith, false, inl, inr, nat_eq, none, refl, some, str_eq, subst, sym, true,
  ◌++◌, ◌∙◌, ◌≡◌, ◌⊎◌,
}
use cordia.Transfers.Stream.Content.{IsSound, Holds, IsRight, is_finishing, is_completed}
use cordia.Transfers.Stream.Schedule.{chunk_of-started, completed_of_right, Fits, step-IsRight}
use cordia.Transfers.Stream.{
  Bytes, StreamState, Writer, finishing, completed, cancelled, Download, Event, chunk, begun, round,
  done, close, cancel, written, finished, start_writer, wake, cleanup, accept, chunk_of, on_done,
  return, refused, finish_of, finish_ends, round_due, write_due, finish_due, step,
}
use cordia.Transfers.Stream.Frame.{
  IsOpenEnded, Frame, return-Frame, refused-Frame, write_due-Frame, round_due-Frame,
  finish_of_arrived, done_of_cases, cancelled-Frame, begun-Frame, wake_start-Frame, accepted,
}

-- What `es` brought so far is `fed`; `told` says whether `done` has come.
pub record IsFed (fed : Bytes) (told : Bool) (d : Download) : Type 0 where
  pub right : IsRight d
  pub taken : ((d.stream ≡ none) × (is_completed d.status ≡ false)) ⊎ (d.arrived ≡ fed)
  pub untold : told ≡ false → (is_completed d.status ≡ false) × IsOpenEnded d.stream

pub Frame-IsFed :
    (fed : Bytes) (told : Bool) (d e : Download)
    → Frame d e
    → IsRight e
    → IsFed fed told d
    → IsFed fed told e
Frame-IsFed fed told d e (same, back, gone, open_end) right h = record {
  right = right;
  taken = ground (arith, same, back, gone, h.taken);
  untold = λ t. let (a, b) = h.untold t in (ground (arith, a, back), open_end b);
}

-- A chunk that a live download takes.
pub chunk-IsFed :
    (sends : Bool) (bytes fed : Bytes) (d : Download) (st : StreamState)
    → d.stream ≡ some st
    → IsRight (start_writer sends (wake (accept sends bytes d st)))
    → IsFed fed false d
    → IsFed (fed ++ bytes) false (start_writer sends (wake (accept sends bytes d st)))
chunk-IsFed sends bytes fed d st e right h =
    let (more, same, still) = accepted sends bytes d st in
    let (kept, back, _, open_end) = wake_start-Frame sends (accept sends bytes d st) in
    let (undone, opened) = h.untold refl in
    record {
      right = right;
      taken = elim h.taken [
        | inl (gone, _) ↦ absurd (ground (arith, gone, e))
        | inr all ↦ inr (kept ∙ more ∙ ap (λ t. t ++ bytes) all)
      ];
      untold = λ t. (ground (arith, back, same, undone), open_end (still (rw e at opened)));
    }

pub chunk_of-IsFed :
    (sends : Bool) (bytes fed : Bytes) (d : Download) (o : Option StreamState)
    → d.stream ≡ o
    → IsRight (chunk_of sends bytes d o)
    → IsFed fed false d
    → IsFed (fed ++ bytes) false (chunk_of sends bytes d o)
unfolding chunk_of
chunk_of-IsFed sends bytes fed d none e right h = record {
  right = h.right;
  taken = inl (e, (h.untold refl).0);
  untold = λ t. h.untold refl;
}
chunk_of-IsFed sends bytes fed d (some st) e right h =
    let same = chunk_of-started sends bytes d st (subst (Holds d) e h.right).is_started in
    subst (IsFed (fed ++ bytes) false) (sym same)
      (chunk-IsFed sends bytes fed d st e (subst IsRight same right) h)

-- A finishing writer was told `done`.
pub finishing_told :
    (d : Download) (st : StreamState)
    → IsSound d st
    → finishing ≡ d.writer
    → st.done_received ≡ true
finishing_told d st h e = ground (arith, h.drained, ap is_finishing e)

pub finish_of-IsFed :
    (fed : Bytes) (told : Bool) (d : Download) (o : Option StreamState)
    → d.stream ≡ o
    → finishing ≡ d.writer
    → IsRight (finish_of d o)
    → IsFed fed told d
    → IsFed fed told (finish_of d o)
finish_of-IsFed fed told d none same e right h =
    unfold finish_of in
    Frame-IsFed fed told d (return d) (return-Frame d) (unfold finish_of in right) h
finish_of-IsFed fed told d (some st) same e right h = record {
  right = right;
  taken = elim h.taken [
    | inl (gone, _) ↦ absurd (ground (arith, gone, same))
    | inr all ↦ inr (finish_of_arrived d st ∙ all)
  ];
  untold = λ t. absurd (
      ground (
        arith,
        finishing_told d st (subst (Holds d) same h.right) e,
        subst IsOpenEnded same (h.untold t).1,
      ));
}

-- The end of the file completes a download only after `done`.
pub finish_due-IsFed :
    (ok : Bool) (fed : Bytes) (told : Bool) (d : Download) (w : Writer)
    → w ≡ d.writer
    → IsRight (finish_due ok d w)
    → IsFed fed told d
    → IsFed fed told (finish_due ok d w)
unfolding finish_due finish_ends
finish_due-IsFed true fed told d finishing e right h =
    finish_of-IsFed fed told d d.stream refl e right h
finish_due-IsFed false fed told d finishing e right h =
    Frame-IsFed fed told d (refused d d.stream) (refused-Frame d d.stream) right h
finish_due-IsFed ok fed told d _ e right h = h

-- The `done` message itself.
pub on_done-IsFed :
    (fed : Bytes) (told : Bool) (d : Download)
    → IsRight (on_done d)
    → IsFed fed told d
    → IsFed fed true (on_done d)
unfolding on_done
on_done-IsFed fed told d right h =
    let (same, gone) = done_of_cases d d.stream in
    record {
      right = right;
      taken = elim h.taken [ inl (n, _) ↦ inl (gone n refl) | inr all ↦ inr (same ∙ all) ];
      untold = λ t. absurd (ground (arith, t));
    }

-- An event that is neither a chunk nor `done`.
abbrev pub is_quiet : Event → Bool
is_quiet (chunk sends bytes) = false
is_quiet done = false
is_quiet _ = true

pub quiet-IsFed :
    (e : Event) (fed : Bytes) (told : Bool) (d : Download)
    → is_quiet e ≡ true
    → IsRight (step e d)
    → IsFed fed told d
    → IsFed fed told (step e d)
unfolding step
quiet-IsFed (chunk sends bytes) fed told d q right h = absurd (ground (arith, q))
quiet-IsFed done fed told d q right h = absurd (ground (arith, q))
quiet-IsFed (begun sends ok) fed told d q right h =
    Frame-IsFed fed told d (step (begun sends ok) d) (begun-Frame sends ok d) right h
quiet-IsFed (round sends) fed told d q right h =
    Frame-IsFed fed told d (round_due sends d d.writer) (round_due-Frame sends d d.writer) right h
quiet-IsFed close fed told d q right h =
    Frame-IsFed fed told d (record d { channel_open = false }) (refl, (λ x. x), (λ x. x), (λ x. x))
      right h
quiet-IsFed cancel fed told d q right h =
    Frame-IsFed fed told d (cleanup (record d { status = cancelled })) (cancelled-Frame d) right h
quiet-IsFed (written ok) fed told d q right h =
    Frame-IsFed fed told d (write_due ok d d.writer) (write_due-Frame ok d d.writer) right h
quiet-IsFed (finished ok) fed told d q right h =
    finish_due-IsFed ok fed told d d.writer refl right h

pub Fits-open :
    (sends : Bool) (bytes : Bytes) (o : Option StreamState)
    → IsOpenEnded o
    → Fits (chunk sends bytes) o
Fits-open sends bytes none h = tt
Fits-open sends bytes (some st) h = h

-- What was brought is on disk if the download is completed.
abbrev pub Ends : Bytes → Download → Type 0
Ends fed d = d.status ≡ completed → d.disk ≡ fed

pub IsFed-Ends : (fed : Bytes) (told : Bool) (d : Download) → IsFed fed told d → Ends fed d
IsFed-Ends fed told d h e =
    completed_of_right d d.stream h.right e ∙ ground (arith, h.taken, ap is_completed e)

-- The quiet events, by a step of either run.
pub step_quiet :
    (e : Event) (fed : Bytes) (told : Bool) (d : Download)
    → is_quiet e ≡ true
    → IsFed fed told d
    → IsFed fed told (step e d)
step_quiet e fed told d q h = quiet-IsFed e fed told d q (step-IsRight e d h.right (fits e q)) h
  where
    fits : (e : Event) → is_quiet e ≡ true → Fits e d.stream
    fits (chunk sends bytes) q = absurd (ground (arith, q))
    fits (begun sends ok) q = tt
    fits (round sends) q = tt
    fits done q = tt
    fits close q = tt
    fits cancel q = tt
    fits (written ok) q = tt
    fits (finished ok) q = tt

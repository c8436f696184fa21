-- ===== src/Transfers/Stream/Drain.antt =====
-- A download whose `done` has come runs to its end, if the native calls succeed.
use cordia.Base.{
  Bool-cases, List, [], ap, arith, eqb, eqb_iff, false, inl, inr, nat_eq, refl, some, str_eq, subst,
  suc, sym, true, zero, ℕ, ◌*◌, ◌<◌, ◌∙◌, ◌∷◌, ◌≡◌, ◌≤◌,
}
use cordia.Transfers.Stream.{
  StreamState, looping, finishing, writing, completed, Download, Event, round, written, finished,
  cleanup, return, stored, turn, round_of, round_on, resume, when_empty, take_batch, step,
  round_due, write_due, write_ends, finish_due, finish_ends, finish_of, run, target_batch_bytes,
  wake,
}

-- `k` rounds, each with its write, and the end.
pub finish_schedule : ℕ → List Event
finish_schedule zero = round true ∷ finished true ∷ []
finish_schedule (suc k) = round true ∷ written true ∷ finish_schedule k

-- A live download at the head of its loop, told that no more comes, with at most `k` batches left.
record IsDraining (k : ℕ) (d : Download) (st : StreamState) : Type 0 where
  live : d.stream ≡ some st
  at_head : d.writer ≡ looping
  is_started : st.started ≡ true
  told : st.done_received ≡ true
  few : st.pending_bytes ≤ k * target_batch_bytes

-- One that is in `finishDownloadStream`.
abbrev IsClosing : Download → Type 0
IsClosing d = (d.writer ≡ finishing) × ((st : StreamState) × (d.stream ≡ some st))

finish_closing : (d : Download) → IsClosing d → (step (finished true) d).status ≡ completed
unfolding step finish_due finish_ends finish_of return cleanup wake
finish_closing d (w, (st, e)) = rw (w, e, finish_of) (ground arith)

round_closing : (d : Download) → IsClosing d → step (round true) d ≡ d
unfolding step round_due
round_closing d (w, _) = ap (round_due true d) w

written_closing : (d : Download) → IsClosing d → step (written true) d ≡ d
unfolding step write_due
written_closing d (w, _) = ap (write_due true d) w

run_closing : (k : ℕ) (d : Download) → IsClosing d → (run (finish_schedule k) d).status ≡ completed
unfolding run finish_schedule
run_closing zero d h =
    subst (λ e. (step (finished true) e).status ≡ completed) (sym (round_closing d h))
      (finish_closing d h)
run_closing (suc k) d h =
    subst (λ e. (run (finish_schedule k) e).status ≡ completed)
      (sym (ap (step (written true)) (round_closing d h) ∙ written_closing d h)) (run_closing k d h)

-- A batch of a draining download is being written; `left` batches may follow.
record IsBusy (left : ℕ) (d : Download) (out : List ℕ) (st : StreamState) : Type 0 where
  live : d.stream ≡ some st
  at_write : d.writer ≡ writing out
  is_started : st.started ≡ true
  told : st.done_received ≡ true
  few : st.pending_bytes ≤ left * target_batch_bytes

resume_keeps :
    (d : Download) (st : StreamState)
    → ((resume true d st).1.pending_bytes ≡ st.pending_bytes)
      × ((resume true d st).1.done_received ≡ st.done_received)
      × ((resume true d st).1.started ≡ st.started)
unfolding resume
resume_keeps d st = ground arith

round_draining_eq :
    (k : ℕ) (d : Download) (st : StreamState)
    → IsDraining k d st
    → step (round true) d ≡ round_on true d st
unfolding step round_due turn round_of
round_draining_eq k d st h =
    rw (h.at_head, round_due) (rw (h.live, turn) (ground (arith, h.is_started)))

when_empty-IsClosing :
    (d : Download) (st : StreamState) → st.done_received ≡ true → IsClosing (when_empty d st)
unfolding when_empty
when_empty-IsClosing d st h = (ground arith, (st, refl))

round_last :
    (k : ℕ) (d : Download) (st : StreamState)
    → IsDraining k d st
    → st.pending_bytes ≡ 0
    → IsClosing (step (round true) d)
round_last k d st h z =
    let kept = resume_keeps d st in
    rw (round_draining_eq k d st h) (
      unfold round_on in
      rw ((eqb_iff (resume true d st).1.pending_bytes 0).1 (kept.0 ∙ z))
        (when_empty-IsClosing _ _ (kept.1 ∙ h.told)))

take_batch-IsBusy :
    (k : ℕ) (d : Download) (st : StreamState)
    → st.pending_bytes ≤ suc k * target_batch_bytes
    → st.started ≡ true
    → st.done_received ≡ true
    → (out : List ℕ) × ((st' : StreamState) × IsBusy k (take_batch d st) out st')
unfolding take_batch
take_batch-IsBusy k d st few s t =
    (_, (_, record { live = refl; at_write = refl; is_started = s; told = t; few = omega arith }))

round-IsBusy :
    (k : ℕ) (d : Download) (st : StreamState)
    → IsDraining (suc k) d st
    → 0 < st.pending_bytes
    → (out : List ℕ) × ((st' : StreamState) × IsBusy k (step (round true) d) out st')
round-IsBusy k d st h p =
    let kept = resume_keeps d st in
    let some_left : eqb (resume true d st).1.pending_bytes 0 ≡ false = ground (arith, kept.0) in
    rw (round_draining_eq (suc k) d st h) (
      unfold round_on in
      rw some_left (
        take_batch-IsBusy k (resume true d st).0 (resume true d st).1 (omega (arith, kept.0, h.few))
          (kept.2 ∙ h.is_started) (kept.1 ∙ h.told)))

written_busy :
    (k : ℕ) (d : Download) (out : List ℕ) (st : StreamState)
    → IsBusy k d out st
    → (st' : StreamState) × IsDraining k (step (written true) d) st'
unfolding step write_due write_ends stored
written_busy k d out st h =
    rw (h.at_write, write_due)
      (rw (h.live, stored)
        (
          _,
          record {
            live = refl;
            at_head = refl;
            is_started = h.is_started;
            told = h.told;
            few = h.few;
          },
        ))

run_draining :
    (k : ℕ) (d : Download) (st : StreamState)
    → IsDraining k d st
    → (run (finish_schedule k) d).status ≡ completed
unfolding run finish_schedule
run_draining zero d st h = finish_closing _ (round_last zero d st h (omega (arith, h.few)))
run_draining (suc k) d st h = elim (Bool-cases (eqb st.pending_bytes 0)) [
  | inl e ↦
      let closing = round_last (suc k) d st h ((eqb_iff st.pending_bytes 0).0 e) in
      subst (λ e. (run (finish_schedule k) e).status ≡ completed)
        (sym (written_closing (step (round true) d) closing)) (run_closing k _ closing)
  | inr e ↦
      let (out, (st', busy)) = round-IsBusy k d st h (ground arith) in
      let (st'', next) = written_busy k _ out st' busy in run_draining k _ st'' next
]

-- Once `done` has come and the writer is at the head of its loop, `k` rounds suffice for up to `k`
-- batches: if the native calls succeed, the download is completed.
pub run-finish_schedule :
    (k : ℕ) (d : Download) (st : StreamState)
    → d.stream ≡ some st
    → d.writer ≡ looping
    → st.started ≡ true
    → st.done_received ≡ true
    → st.pending_bytes ≤ k * target_batch_bytes
    → (run (finish_schedule k) d).status ≡ completed
run-finish_schedule k d st e w s t few =
    run_draining k d st (record { live = e; at_head = w; is_started = s; told = t; few = few })

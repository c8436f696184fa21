-- ===== src/Transfers/Stream/Carried.antt =====
-- What arrived at a completed download is what its channel carried.
use mathlib.Core.List.{append_assoc, append-nil, flatten}
use cordia.Base.{
  Bool, List, [], arith, false, inr, nat_eq, refl, str_eq, subst, sym, true, ℕ, ◌++◌, ◌∷◌, ◌≡◌,
}
use cordia.Transfers.Stream.Content.{IsRight}
use cordia.Transfers.Stream.Schedule.{step-IsRight, on_meta-IsRight}
use cordia.Transfers.Stream.{
  Bytes, completed, Download, Event, chunk, begun, round, done, close, cancel, written, finished,
  on_chunk, on_meta, step, run,
}
use cordia.Transfers.Stream.Fed.{
  IsFed, chunk_of-IsFed, on_done-IsFed, Fits-open, Ends, IsFed-Ends, step_quiet,
}

-- The chunks that a schedule brings, and no chunk after `done`: the channel is ordered.
abbrev pub chunks_of : List Event → List Bytes
chunks_of [] = []
chunks_of (chunk sends bytes ∷ es) = bytes ∷ chunks_of es
chunks_of (_ ∷ es) = chunks_of es

abbrev pub IsChannel : List Event → Type 0
IsChannel [] = Unit
IsChannel (done ∷ es) = chunks_of es ≡ []
IsChannel (_ ∷ es) = IsChannel es

chunk_taken :
    (sends : Bool) (bytes fed : Bytes) (d : Download)
    → IsRight (step (chunk sends bytes) d)
    → IsFed fed false d
    → IsFed (fed ++ bytes) false (step (chunk sends bytes) d)
unfolding step on_chunk
chunk_taken sends bytes fed d right h = chunk_of-IsFed sends bytes fed d d.stream refl right h

done_taken :
    (fed : Bytes) (told : Bool) (d : Download)
    → IsRight (step done d)
    → IsFed fed told d
    → IsFed fed true (step done d)
unfolding step
done_taken fed told d right h = on_done-IsFed fed told d right h

-- What may still come: no chunk once `done` has come.
abbrev Follows : Bool → List Event → Type 0
Follows told es = (told ≡ true → chunks_of es ≡ []) × (told ≡ false → IsChannel es)

run-Ends :
    (es : List Event) (fed : Bytes) (told : Bool) (d : Download)
    → Follows told es
    → IsFed fed told d
    → Ends (fed ++ flatten (chunks_of es)) (run es d)
unfolding run flatten
run-Ends [] fed told d f h = subst (λ t. Ends t d) (sym (append-nil fed)) (IsFed-Ends fed told d h)
run-Ends (chunk sends bytes ∷ es) fed true d f h = absurd (ground (arith, f.0 refl))
run-Ends (chunk sends bytes ∷ es) fed false d f h =
    let right =
      step-IsRight (chunk sends bytes) d h.right
        (Fits-open sends bytes d.stream (h.untold refl).1) in
    let ih =
      run-Ends es (fed ++ bytes) false (step (chunk sends bytes) d)
        ((λ t. absurd (ground (arith, t))), f.1) (chunk_taken sends bytes fed d right h) in
    subst (λ t. Ends t (run es (step (chunk sends bytes) d)))
      (append_assoc fed bytes (flatten (chunks_of es))) ih
run-Ends (done ∷ es) fed told d f h =
    run-Ends es fed true (step done d) ((λ t. none_left told f), (λ t. absurd (ground (arith, t))))
      (done_taken fed told d (step-IsRight done d h.right tt) h)
  where
    none_left : (told : Bool) → Follows told (done ∷ es) → chunks_of es ≡ []
    none_left true g = g.0 refl
    none_left false g = g.1 refl
run-Ends (begun sends ok ∷ es) fed told d f h =
    run-Ends es fed told (step (begun sends ok) d) f (step_quiet (begun sends ok) fed told d refl h)
run-Ends (round sends ∷ es) fed told d f h =
    run-Ends es fed told (step (round sends) d) f (step_quiet (round sends) fed told d refl h)
run-Ends (close ∷ es) fed told d f h =
    run-Ends es fed told (step (close) d) f (step_quiet (close) fed told d refl h)
run-Ends (cancel ∷ es) fed told d f h =
    run-Ends es fed told (step (cancel) d) f (step_quiet (cancel) fed told d refl h)
run-Ends (written ok ∷ es) fed told d f h =
    run-Ends es fed told (step (written ok) d) f (step_quiet (written ok) fed told d refl h)
run-Ends (finished ok ∷ es) fed told d f h =
    run-Ends es fed told (step (finished ok) d) f (step_quiet (finished ok) fed told d refl h)

on_meta-IsFed : (size : ℕ) → IsFed [] false (on_meta size)
on_meta-IsFed size = record {
  right = on_meta-IsRight size;
  taken = inr (unfold on_meta in refl);
  untold = λ t. unfold on_meta in (refl, refl);
}

-- A completed download has on disk what its channel carried, in order, for every schedule in which
-- no chunk follows `done`.
pub completed-disk_eq_chunks :
    (size : ℕ) (es : List Event)
    → IsChannel es
    → (run es (on_meta size)).status ≡ completed
    → (run es (on_meta size)).disk ≡ flatten (chunks_of es)
completed-disk_eq_chunks size es c e =
    run-Ends es [] false (on_meta size) ((λ t. absurd (ground (arith, t))), (λ _. c))
      (on_meta-IsFed size) e

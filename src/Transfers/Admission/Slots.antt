-- ===== src/Transfers/Admission/Slots.antt =====
-- At most two sessions are active, and a schedule leaves no slot free that it can use.
use cordia.Base.{
  Bool, Bool-cases, List, Option, Str, [], ap, arith, false, inl, inr, leb, length, length-append,
  length-keep-le, lookup, nat_eq, none, not, put, refl, remove, some, str_eq, true, ℕ, ◌+◌, ◌==◌,
  ◌∷◌, ◌≡◌, ◌≤◌, ◌⊎◌,
}
use cordia.Transfers.Admission.{
  AdmittedSession, Admission, max_active_upload_sessions, get_or_create, set_subscriber, subscribe,
  can_run, enqueue, without, run_session, admit, fill, id_of, schedule, forget, remove_subscriber,
  end_run, AdmissionEvent, subscribes, opens, drops, ends, admission_step, admission_run,
}

abbrev pub IsWithin : Admission → Type 0
IsWithin s = length s.active ≤ max_active_upload_sessions

run_session-active :
    (found : Option AdmittedSession) (n starter : ℕ) (s : Admission)
    → length (run_session found n starter s).active ≤ length s.active + 1
unfolding run_session
run_session-active none n starter s = omega arith
run_session-active (some o) n starter s =
    ground (arith, length-append s.active (o.attachment_id ∷ []))

admit-active :
    (found : Option ℕ) (starter : ℕ) (s : Admission)
    → length (admit found starter s).active ≤ length s.active + 1
unfolding admit
admit-active none starter s = omega arith
admit-active (some n) starter s =
    ground (arith, run_session-active (lookup n s.objects) n starter s)

fill-IsWithin :
    (starter : ℕ) (ids : List Str) (s : Admission) → IsWithin s → IsWithin (fill starter ids s)
unfolding fill
fill-IsWithin starter [] s h = h
fill-IsWithin starter (id ∷ ids) s h =
    elim (Bool-cases (leb max_active_upload_sessions (length s.active))) [
      | inl full ↦ rw full h
      | inr free ↦ rw free (
          fill-IsWithin starter ids (admit (lookup id s.sessions) starter s)
            (ground (arith, admit-active (lookup id s.sessions) starter s, free)))
    ]

schedule-IsWithin : (n : ℕ) (s : Admission) → IsWithin s → IsWithin (schedule n s)
unfolding schedule enqueue
schedule-IsWithin n s h =
    let t = enqueue (id_of (lookup n s.objects)) s in ground (arith, fill-IsWithin n t.pending t)

forget-active : (id : Str) (s : Admission) → length (forget id s).active ≤ length s.active
unfolding forget
forget-active id s = length-keep-le (λ other. not (other == id)) s.active

remove_subscriber-IsWithin :
    (found : Option AdmittedSession) (n : ℕ) (request : Str) (s : Admission)
    → IsWithin s
    → IsWithin (remove_subscriber found n request s)
unfolding remove_subscriber
remove_subscriber-IsWithin none n request s h = h
remove_subscriber-IsWithin (some o) n request s h =
    let left = record s {
      objects = put n (record o { subscribers = remove request o.subscribers }) s.objects;
    } in
    ground (arith, forget-active o.attachment_id left, h)

end_run-IsWithin :
    (found : Option AdmittedSession) (n : ℕ) (s : Admission)
    → IsWithin s
    → IsWithin (end_run found n s)
unfolding end_run
end_run-IsWithin none n s h = h
end_run-IsWithin (some o) n s h =
    let stopped = record s {
      objects = put n (record o { running = false }) s.objects;
      active = without o.attachment_id s.active;
    } in
    ground (
      arith,
      schedule-IsWithin o.starter stopped,
      schedule-IsWithin o.starter (forget o.attachment_id stopped),
      forget-active o.attachment_id stopped,
      length-keep-le (λ other. not (other == o.attachment_id)) s.active,
      h,
    )

set_subscriber-active :
    (found : Option AdmittedSession) (n : ℕ) (request : Str) (ready : Bool) (s : Admission)
    → (set_subscriber found n request ready s).active ≡ s.active
unfolding set_subscriber
set_subscriber-active none n request ready s = refl
set_subscriber-active (some o) n request ready s = refl

get_or_create-active :
    (found : Option ℕ) (attachment : Str) (s : Admission)
    → (get_or_create found attachment s).1.active ≡ s.active
unfolding get_or_create
get_or_create-active none attachment s = refl
get_or_create-active (some n) attachment s = refl

subscribe-IsWithin :
    (attachment request : Str) (s : Admission)
    → IsWithin s
    → IsWithin (subscribe attachment request s)
unfolding subscribe
subscribe-IsWithin attachment request s h =
    let (n, t) = get_or_create (lookup attachment s.sessions) attachment s in
    omega (
      arith,
      ap length (set_subscriber-active (lookup n t.objects) n request false t),
      ap length (get_or_create-active (lookup attachment s.sessions) attachment s),
      h,
    )

admission_step-IsWithin :
    (e : AdmissionEvent) (s : Admission) → IsWithin s → IsWithin (admission_step e s)
unfolding admission_step
admission_step-IsWithin (subscribes attachment request) s h =
    subscribe-IsWithin attachment request s h
admission_step-IsWithin (opens n request) s h =
    let t = set_subscriber (lookup n s.objects) n request true s in
    schedule-IsWithin n t
      (omega (arith, ap length (set_subscriber-active (lookup n s.objects) n request true s), h))
admission_step-IsWithin (drops n request) s h =
    remove_subscriber-IsWithin (lookup n s.objects) n request s h
admission_step-IsWithin (ends n) s h = end_run-IsWithin (lookup n s.objects) n s h

-- In every schedule, at most two upload sessions are active.
pub admission_run-within :
    (es : List AdmissionEvent) (s : Admission)
    → length s.active ≤ max_active_upload_sessions
    → length (admission_run es s).active ≤ max_active_upload_sessions
unfolding admission_run
admission_run-within [] s h = h
admission_run-within (e ∷ es) s h =
    admission_run-within es (admission_step e s) (admission_step-IsWithin e s h)

fill-fills :
    (starter : ℕ) (ids : List Str) (s : Admission)
    → ((fill starter ids s).pending ≡ [])
      ⊎ (max_active_upload_sessions ≤ length (fill starter ids s).active)
unfolding fill
fill-fills starter [] s = inl refl
fill-fills starter (id ∷ ids) s =
    elim (Bool-cases (leb max_active_upload_sessions (length s.active))) [
      | inl full ↦ rw full (inr (ground (arith, full)))
      | inr free ↦ rw free (fill-fills starter ids (admit (lookup id s.sessions) starter s))
    ]

-- When a session with a ready subscriber that does not run is scheduled, no session is left waiting
-- beside a free slot.
pub schedule-fills :
    (n : ℕ) (s : Admission)
    → can_run (lookup n s.objects) ≡ true
    → ((schedule n s).pending ≡ []) ⊎ (max_active_upload_sessions ≤ length (schedule n s).active)
unfolding schedule
schedule-fills n s able =
    let t = enqueue (id_of (lookup n s.objects)) s in rw able (fill-fills n t.pending t)

-- ===== src/Transfers/Admission/Tests.antt =====
-- The admission of upload sessions at an input.
use cordia.Base.{
  Bool, List, Str, [], arith, false, length, lookup, nat_eq, put, refl, remove, str_eq, true, units,
  ℕ, ◌∷◌, ◌≡◌, ◌≤◌,
}
use cordia.Transfers.Admission.{
  AdmittedSession, Admission, max_active_upload_sessions, get_or_create, set_subscriber, subscribe,
  enqueue, run_session, admit, fill, schedule, forget, remove_subscriber, AdmissionEvent,
  subscribes, opens, drops, ends, admission_step, admission_run,
}
use cordia.Transfers.Admission.Slots.{admission_run-within}
use cordia.Transfers.Admission.Stranded.{is_running, AreQuiet, admission_run-stranded}

abbrev nothing : Admission
nothing = record { objects = []; next_object = 0; sessions = []; active = []; pending = [] }

-- Three files are asked for, and their channels open.
abbrev three : List AdmissionEvent
three =
    subscribes (units "a") (units "1")
    ∷ subscribes (units "b") (units "2")
    ∷ subscribes (units "c") (units "3")
    ∷ opens 0 (units "1")
    ∷ opens 1 (units "2")
    ∷ opens 2 (units "3")
    ∷ []

third_waits : (admission_run three nothing).pending ≡ units "c" ∷ []
unfolding admission_run admission_step subscribe get_or_create set_subscriber schedule enqueue fill
    admit run_session lookup put
third_waits = refl

admission_run-within_example :
    length (admission_run three nothing).active ≤ max_active_upload_sessions
admission_run-within_example = admission_run-within three nothing (omega arith)

abbrev file : Str → ℕ → Bool → AdmittedSession
file id n running = record {
  attachment_id = id;
  running = running;
  starter = n;
  subscribers = (units "1", true) ∷ [];
}

-- Two sessions run, and the third waits, as after `three`.
abbrev waiting : Admission
waiting = record {
  objects =
      (0, file (units "a") 0 true)
      ∷ (1, file (units "b") 1 true)
      ∷ (2, file (units "c") 0 false)
      ∷ [];
  next_object = 3;
  sessions = (units "a", 0) ∷ (units "b", 1) ∷ (units "c", 2) ∷ [];
  active = units "a" ∷ units "b" ∷ [];
  pending = units "c" ∷ [];
}

-- The first is sent, and ends; the third waits on.
first_ends_quiet : AreQuiet (drops 0 (units "1") ∷ ends 0 ∷ []) waiting
unfolding admission_step remove_subscriber forget lookup put remove
first_ends_quiet = (tt, ((refl, refl), tt))

admission_run-stranded_example :
    is_running (lookup 2 (admission_run (drops 0 (units "1") ∷ ends 0 ∷ []) waiting).objects)
    ≡ false
unfolding lookup
admission_run-stranded_example =
    admission_run-stranded (drops 0 (units "1") ∷ ends 0 ∷ []) waiting 2 first_ends_quiet refl

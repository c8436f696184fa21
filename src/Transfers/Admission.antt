-- ===== src/Transfers/Admission.antt =====
-- Which upload sessions run: `getOrCreateUploadSession`, `removeUploadSubscriber` and the `schedule`
-- of `startUploadSessionPump` of src/contexts/EphemeralMessagesContext.tsx. A session is a number, since
-- the code keeps the object of a session beyond its entry in the map; of its subscribers the model
-- keeps whether they are ready. What a session that runs does is Transfers.Upload; a subscriber that
-- its first round is done with is taken to leave after the loop that started it.
pub mod Slots
pub mod Stranded
mod Tests
use cordia.Base.{
  Bool, Dict, List, Option, Str, [], any, contains, false, if◌then◌else◌, keep, leb, length, lookup,
  nat_eq, none, not, put, remove, some, str_eq, true, ℕ, ◌&&◌, ◌++◌, ◌+◌, ◌==◌, ◌||◌, ◌∷◌,
}

-- `starter` is the session whose `schedule` started the run.
pub record AdmittedSession : Type 0 where
  pub attachment_id : Str
  pub running : Bool
  pub starter : ℕ
  pub subscribers : Dict Str Bool

-- `sessions` is uploadSessionsRef, `active` activeUploadSessionIdsRef and `pending`
-- pendingUploadSessionIdsRef.
pub record Admission : Type 0 where
  pub objects : Dict ℕ AdmittedSession
  pub next_object : ℕ
  pub sessions : Dict Str ℕ
  pub active : List Str
  pub pending : List Str

abbrev pub max_active_upload_sessions : ℕ
max_active_upload_sessions = 2

abbrev pub no_subscribers : Str → AdmittedSession
no_subscribers attachment = record {
  attachment_id = attachment;
  running = false;
  starter = 0;
  subscribers = [];
}

-- getOrCreateUploadSession: the number of the session, and the new state
unfoldable pub get_or_create : Option ℕ → Str → Admission → ℕ × Admission
get_or_create (some n) attachment s = (n, s)
get_or_create none attachment s = (
  s.next_object,
  record s {
    objects = put s.next_object (no_subscribers attachment) s.objects;
    next_object = s.next_object + 1;
    sessions = put attachment s.next_object s.sessions;
  },
)

unfoldable pub set_subscriber : Option AdmittedSession → ℕ → Str → Bool → Admission → Admission
set_subscriber none n request ready s = s
set_subscriber (some o) n request ready s = record s {
  objects = put n (record o { subscribers = put request ready o.subscribers }) s.objects;
}

-- A request that is allowed: its subscriber is not ready before its channel opens.
unfoldable pub subscribe : Str → Str → Admission → Admission
subscribe attachment request s =
    let (n, t) = get_or_create (lookup attachment s.sessions) attachment s in
    set_subscriber (lookup n t.objects) n request false t

-- hasRunnableUploadSubscriber
abbrev pub has_runnable : Dict Str Bool → Bool
has_runnable subscribers = any (λ b. b.1) subscribers

abbrev pub can_run : Option AdmittedSession → Bool
can_run none = false
can_run (some o) = not o.running && has_runnable o.subscribers

unfoldable pub enqueue : Str → Admission → Admission
enqueue attachment s =
    if contains s.active attachment || contains s.pending attachment
    then s
    else record s { pending = s.pending ++ attachment ∷ [] }

abbrev pub adding : Str → List Str → List Str
adding id set = if contains set id then set else set ++ id ∷ []

abbrev pub without : Str → List Str → List Str
without id set = keep (λ other. not (other == id)) set

unfoldable pub run_session : Option AdmittedSession → ℕ → ℕ → Admission → Admission
run_session none n starter s = s
run_session (some o) n starter s = record s {
  objects = put n (record o { running = true; starter = starter }) s.objects;
  active = adding o.attachment_id s.active;
}

-- One round of the loop: the session of the id that was shifted from `pending`.
unfoldable pub admit : Option ℕ → ℕ → Admission → Admission
admit none starter s = s
admit (some n) starter s =
    if can_run (lookup n s.objects) then run_session (lookup n s.objects) n starter s else s

unfoldable pub fill : ℕ → List Str → Admission → Admission
fill starter [] s = record s { pending = [] }
fill starter (id ∷ ids) s =
    let rest = fill starter ids (admit (lookup id s.sessions) starter s) in
    if leb max_active_upload_sessions (length s.active)
    then record s { pending = id ∷ ids }
    else rest

abbrev pub id_of : Option AdmittedSession → Str
id_of none = []
id_of (some o) = o.attachment_id

unfoldable pub schedule : ℕ → Admission → Admission
schedule n s =
    let t = enqueue (id_of (lookup n s.objects)) s in
    if can_run (lookup n s.objects) then fill n t.pending t else s

-- uploadSessionsRef without the id, dequeueUploadSession, and the id is no longer active
unfoldable pub forget : Str → Admission → Admission
forget attachment s = record s {
  sessions = remove attachment s.sessions;
  pending = without attachment s.pending;
  active = without attachment s.active;
}

abbrev pub is_nil : Dict Str Bool → Bool
is_nil [] = true
is_nil (b ∷ subscribers) = false

-- removeUploadSubscriber
unfoldable pub remove_subscriber : Option AdmittedSession → ℕ → Str → Admission → Admission
remove_subscriber none n request s = s
remove_subscriber (some o) n request s =
    let left = remove request o.subscribers in
    let t = record s { objects = put n (record o { subscribers = left }) s.objects } in
    if is_nil left then forget o.attachment_id t else t

-- The `finally` of a run.
unfoldable pub end_run : Option AdmittedSession → ℕ → Admission → Admission
end_run none n s = s
end_run (some o) n s =
    let stopped = record s {
      objects = put n (record o { running = false }) s.objects;
      active = without o.attachment_id s.active;
    } in
    if o.running
    then schedule o.starter
        (if is_nil o.subscribers then forget o.attachment_id stopped else stopped)
    else s

pub data AdmissionEvent : Type 0 where
  subscribes : Str → Str → AdmissionEvent
  opens drops : ℕ → Str → AdmissionEvent
  ends : ℕ → AdmissionEvent

unfoldable pub admission_step : AdmissionEvent → Admission → Admission
admission_step (subscribes attachment request) s = subscribe attachment request s
admission_step (opens n request) s =
    schedule n (set_subscriber (lookup n s.objects) n request true s)
admission_step (drops n request) s = remove_subscriber (lookup n s.objects) n request s
admission_step (ends n) s = end_run (lookup n s.objects) n s

unfoldable pub admission_run : List AdmissionEvent → Admission → Admission
admission_run [] s = s
admission_run (e ∷ es) s = admission_run es (admission_step e s)

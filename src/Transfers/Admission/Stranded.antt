-- ===== src/Transfers/Admission/Stranded.antt =====
-- A session that waits for a slot is not started as another ends.
use cordia.Base.{
  Bool, List, Option, Str, [], ap, arith, eqb_iff, false, if◌then◌else◌, lookup, lookup-put, nat_eq,
  none, put, refl, remove, some, str_eq, true, ℕ, ◌∙◌, ◌∷◌, ◌≡◌,
}
use cordia.Transfers.Admission.{
  AdmittedSession, Admission, no_subscribers, get_or_create, set_subscriber, subscribe, without,
  schedule, forget, is_nil, remove_subscriber, end_run, AdmissionEvent, subscribes, opens, drops,
  ends, admission_step, admission_run,
}

abbrev pub is_running : Option AdmittedSession → Bool
is_running none = false
is_running (some o) = o.running

-- The session started itself, and its subscribers are gone.
abbrev pub IsSpent : ℕ → Option AdmittedSession → Type 0
IsSpent n none = Unit
IsSpent n (some o) = (o.starter ≡ n) × (o.subscribers ≡ [])

-- No channel opens, and what ends is spent.
abbrev pub IsQuiet : AdmissionEvent → Admission → Type 0
IsQuiet (opens n request) s = ⊥
IsQuiet (ends n) s = IsSpent n (lookup n s.objects)
IsQuiet _ s = Unit

abbrev pub AreQuiet : List AdmissionEvent → Admission → Type 0
AreQuiet [] s = Unit
AreQuiet (e ∷ es) s = IsQuiet e s × AreQuiet es (admission_step e s)

abbrev StartsNone : Admission → Admission → Type 0
StartsNone s t =
    (k : ℕ) → is_running (lookup k t.objects) ≡ true → is_running (lookup k s.objects) ≡ true

set_subscriber-StartsNone :
    (found : Option AdmittedSession) (n : ℕ) (request : Str) (ready : Bool) (s : Admission)
    → lookup n s.objects ≡ found
    → StartsNone s (set_subscriber found n request ready s)
unfolding set_subscriber
set_subscriber-StartsNone none n request ready s e k run = run
set_subscriber-StartsNone (some o) n request ready s e k run = ground (
  arith,
  run,
  e,
  lookup-put n k (record o { subscribers = put request ready o.subscribers }) s.objects,
  eqb_iff n k,
)

get_or_create-StartsNone :
    (found : Option ℕ) (attachment : Str) (s : Admission)
    → StartsNone s (get_or_create found attachment s).1
unfolding get_or_create
get_or_create-StartsNone none attachment s k run = ground (
  arith,
  run,
  lookup-put s.next_object k (no_subscribers attachment) s.objects,
  eqb_iff s.next_object k,
)
get_or_create-StartsNone (some n) attachment s k run = run

remove_subscriber-StartsNone :
    (found : Option AdmittedSession) (n : ℕ) (request : Str) (s : Admission)
    → lookup n s.objects ≡ found
    → StartsNone s (remove_subscriber found n request s)
unfolding remove_subscriber forget
remove_subscriber-StartsNone none n request s e k run = run
remove_subscriber-StartsNone (some o) n request s e k run = ground (
  arith,
  run,
  e,
  lookup-put n k (record o { subscribers = remove request o.subscribers }) s.objects,
  eqb_iff n k,
)

forget_objects :
    (b : Bool) (id : Str) (s : Admission) → (if b then forget id s else s).objects ≡ s.objects
unfolding forget
forget_objects true id s = refl
forget_objects false id s = refl

-- A session without subscribers schedules nothing.
unable :
    (n : ℕ) (o : AdmittedSession) (s : Admission)
    → lookup n s.objects ≡ some o
    → o.subscribers ≡ []
    → schedule n s ≡ s
unfolding schedule
unable n o s e gone = ground (arith, e, gone)

end_run-StartsNone :
    (found : Option AdmittedSession) (n : ℕ) (s : Admission)
    → lookup n s.objects ≡ found
    → IsSpent n found
    → StartsNone s (end_run found n s)
unfolding end_run
end_run-StartsNone none n s e spent k run = run
end_run-StartsNone (some o) n s e (own, gone) k run =
    let stopped = record s {
      objects = put n (record o { running = false }) s.objects;
      active = without o.attachment_id s.active;
    } in
    let left = if is_nil o.subscribers then forget o.attachment_id stopped else stopped in
    let o' : AdmittedSession = record o { running = false } in
    let same = forget_objects (is_nil o.subscribers) o.attachment_id stopped in
    let there : lookup n left.objects ≡ some o' =
      ap (lookup n) same ∙ ground (arith, lookup-put n n o' s.objects, eqb_iff n n) in
    let idle : schedule o.starter left ≡ left =
      ap (λ m. schedule m left) own ∙ unable n o' left there gone in
    ground (arith, run, e, idle, same, lookup-put n k o' s.objects, eqb_iff n k)

subscribe-StartsNone :
    (attachment request : Str) (s : Admission) → StartsNone s (subscribe attachment request s)
unfolding subscribe
subscribe-StartsNone attachment request s k run =
    let (n, t) = get_or_create (lookup attachment s.sessions) attachment s in
    get_or_create-StartsNone (lookup attachment s.sessions) attachment s k
      (set_subscriber-StartsNone (lookup n t.objects) n request false t refl k run)

admission_step-StartsNone :
    (e : AdmissionEvent) (s : Admission) → IsQuiet e s → StartsNone s (admission_step e s)
unfolding admission_step
admission_step-StartsNone (subscribes attachment request) s q =
    subscribe-StartsNone attachment request s
admission_step-StartsNone (opens n request) s q = absurd q
admission_step-StartsNone (drops n request) s q =
    remove_subscriber-StartsNone (lookup n s.objects) n request s refl
admission_step-StartsNone (ends n) s q = end_run-StartsNone (lookup n s.objects) n s refl q

run-StartsNone :
    (es : List AdmissionEvent) (s : Admission) → AreQuiet es s → StartsNone s (admission_run es s)
unfolding admission_run
run-StartsNone [] s quiet k run = run
run-StartsNone (e ∷ es) s quiet k run =
    admission_step-StartsNone e s quiet.0 k (run-StartsNone es (admission_step e s) quiet.1 k run)

-- As long as no channel opens, and each session that ends was started by its own subscriber and has
-- none left, a session that does not run is not started, whatever slots come free.
pub admission_run-stranded :
    (es : List AdmissionEvent) (s : Admission) (k : ℕ)
    → AreQuiet es s
    → is_running (lookup k s.objects) ≡ false
    → is_running (lookup k (admission_run es s).objects) ≡ false
admission_run-stranded es s k quiet idle = ground (arith, idle, run-StartsNone es s quiet k)

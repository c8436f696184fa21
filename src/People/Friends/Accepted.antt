-- ===== src/People/Friends/Accepted.antt =====
-- An accepted request makes a friend, once the native side has done its work.
use cordia.Base.{
  Bool, List, Option, Str, [], ap, arith, contains, contains-keep, false, nat_eq, none, not, refl,
  replicate, some, str_beq_iff, str_eq, suc, sym, true, zero, ℕ, ◌&&◌, ◌++◌, ◌+◌, ◌-◌, ◌==◌, ◌||◌,
  ◌∙◌, ◌∷◌, ◌≡◌,
}
use cordia.People.Friends.{
  Friends, NativeCall, add_friend, remove_friend, list_friends, answer, native_ends,
}
use cordia.People.Friends.Handlers.{on_accepted, befriend}
use cordia.People.Friends.Schedule.{FriendEvent, native, friends_step, friends_run}
use cordia.People.Friends.Tied.{contains-including}
use cordia.People.Friends.Synced.{
  IsSynced, IsReading, Succeeds, friends_run-synced, on_accepted-IsSynced,
}

-- How many answers the outstanding calls take: a change is followed by a reading.
abbrev pub answers : List NativeCall → ℕ
answers [] = 0
answers (list_friends user ∷ calls) = 1 + answers calls
answers (_ ∷ calls) = 2 + answers calls

-- Whether the native list has `u` when the calls are done, if it has it now or not.
abbrev will_hold : Str → List NativeCall → Bool → Bool
will_hold u [] has = has
will_hold u (add_friend forgets v ∷ calls) has = will_hold u calls (has || v == u)
will_hold u (remove_friend v ∷ calls) has = will_hold u calls (not (u == v) && has)
will_hold u (list_friends v ∷ calls) has = will_hold u calls has

answers-append_list :
    (calls : List NativeCall) (v : Option Str)
    → answers (calls ++ list_friends v ∷ []) ≡ answers calls + 1
answers-append_list [] v = omega arith
answers-append_list (add_friend forgets u ∷ calls) v = omega (arith, answers-append_list calls v)
answers-append_list (remove_friend u ∷ calls) v = omega (arith, answers-append_list calls v)
answers-append_list (list_friends u ∷ calls) v = omega (arith, answers-append_list calls v)

will_hold-append_list :
    (u : Str) (calls : List NativeCall) (v : Option Str) (has : Bool)
    → will_hold u (calls ++ list_friends v ∷ []) has ≡ will_hold u calls has
will_hold-append_list u [] v has = refl
will_hold-append_list u (add_friend forgets w ∷ calls) v has = will_hold-append_list u calls v _
will_hold-append_list u (remove_friend w ∷ calls) v has = will_hold-append_list u calls v _
will_hold-append_list u (list_friends w ∷ calls) v has = will_hold-append_list u calls v has

will_hold-append_add :
    (u : Str) (calls : List NativeCall) (forgets : Bool) (has : Bool)
    → will_hold u (calls ++ add_friend forgets u ∷ []) has ≡ true
will_hold-append_add u [] forgets has = ground (arith, str_beq_iff u u)
will_hold-append_add u (add_friend f w ∷ calls) forgets has = will_hold-append_add u calls forgets _
will_hold-append_add u (remove_friend w ∷ calls) forgets has =
    will_hold-append_add u calls forgets _
will_hold-append_add u (list_friends w ∷ calls) forgets has =
    will_hold-append_add u calls forgets has

-- A good answer takes one off the answers that are due, and leaves what the list will hold.
native_step :
    (u : Str) (calls : List NativeCall) (s : Friends)
    → let t = native_ends true calls s in
      s.calls ≡ calls
      → (answers t.calls ≡ answers calls - 1)
        × (will_hold u t.calls (contains t.stored_friends u)
            ≡ will_hold u calls (contains s.stored_friends u))
unfolding native_ends answer
native_step u [] s e = rw e (refl, refl)
native_step u (add_friend forgets v ∷ calls) s e = (
  omega (arith, answers-append_list calls _),
  will_hold-append_list u calls _ _
      ∙ ap (will_hold u calls) (contains-including u v s.stored_friends),
)
native_step u (remove_friend v ∷ calls) s e = (
  omega (arith, answers-append_list calls _),
  will_hold-append_list u calls _ _
      ∙ ap (will_hold u calls) (contains-keep (λ id. not (id == v)) u s.stored_friends),
)
native_step u (list_friends none ∷ calls) s e = (omega arith, refl)
native_step u (list_friends (some v) ∷ calls) s e = (omega arith, refl)

-- `n` calls in a row end well.
abbrev pub all_well : ℕ → List FriendEvent
all_well n = replicate n (native true)

all_well-IsReading : (n : ℕ) (s : Friends) → IsReading (all_well n) s
all_well-IsReading zero s = tt
all_well-IsReading (suc n) s = (go s.calls, all_well-IsReading n (friends_step (native true) s))
  where
    go : (calls : List NativeCall) → Succeeds true calls
    go [] = tt
    go (add_friend forgets v ∷ calls) = tt
    go (remove_friend v ∷ calls) = tt
    go (list_friends v ∷ calls) = refl

all_well_done :
    (u : Str) (n : ℕ) (s : Friends)
    → let t = friends_run (all_well n) s in
      answers s.calls ≡ n
      → (answers t.calls ≡ 0)
        × (will_hold u t.calls (contains t.stored_friends u)
            ≡ will_hold u s.calls (contains s.stored_friends u))
unfolding friends_run friends_step
all_well_done u zero s e = (e, refl)
all_well_done u (suc n) s e =
    let once = native_step u s.calls s refl in
    let rest = all_well_done u n (native_ends true s.calls s) (omega (arith, once.0)) in
    (rest.0, rest.1 ∙ once.1)

no_answers : (calls : List NativeCall) → answers calls ≡ 0 → calls ≡ []
no_answers [] e = refl
no_answers (list_friends u ∷ calls) e = absurd (omega arith)
no_answers (add_friend f u ∷ calls) e = absurd (omega arith)
no_answers (remove_friend u ∷ calls) e = absurd (omega arith)

on_accepted_calls :
    (by me : Str) (name at : Option Str) (s : Friends)
    → s.identity ≡ some me
    → (on_accepted by me name at s).calls ≡ s.calls ++ add_friend false by ∷ []
unfolding on_accepted befriend
on_accepted_calls by me name at s e = rw e (ground (arith, str_beq_iff me me))

-- When a request that the user sent is accepted, then after as many good native answers as are due,
-- whatever calls were outstanding, none is outstanding and the accepter is shown as a friend, where
-- the friends shown followed the native list before.
pub on_accepted-friend :
    (by me : Str) (name at : Option Str) (s : Friends)
    → s.identity ≡ some me
    → IsSynced s
    → let t = on_accepted by me name at s in
      let end = friends_run (all_well (answers t.calls)) t in
      (end.calls ≡ []) × (contains end.friends by ≡ true)
on_accepted-friend by me name at s e h =
    let t = on_accepted by me name at s in
    let end = friends_run (all_well (answers t.calls)) t in
    let done = all_well_done by (answers t.calls) t refl in
    let empty : end.calls ≡ [] = no_answers end.calls done.0 in
    let held : contains end.stored_friends by ≡ true =
      sym (ap (λ c. will_hold by c (contains end.stored_friends by)) empty)
      ∙ done.1
      ∙ ap (λ c. will_hold by c (contains t.stored_friends by))
          (on_accepted_calls by me name at s e)
      ∙ will_hold-append_add by s.calls false (contains t.stored_friends by) in
    (
      empty,
      ap (λ ids. contains ids by)
            (friends_run-synced (all_well (answers t.calls)) t (all_well-IsReading _ t)
              (on_accepted-IsSynced by me name at s h) empty)
          ∙ held,
    )

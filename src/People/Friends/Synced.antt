-- ===== src/People/Friends/Synced.antt =====
-- The friends that are shown follow the native list.
use cordia.Base.{
  Bool, List, Option, Str, [], any, ap, arith, false, inl, inr, lookup, nat_eq, none, refl, some,
  str_eq, sym, true, truthy_option, ℕ, ◌++◌, ◌∙◌, ◌∷◌, ◌≡◌, ◌⊎◌,
}
use cordia.People.Friends.{
  Friends, NativeCall, add_friend, remove_friend, list_friends, answer, native_ends,
}
use cordia.People.Friends.Actions.{
  send_friend_request, accept_friend_request, cancel_friend_request, decline_friend_request,
  create_friend_code, revoke_friend_code, redeem_friend_code, add_owner, accept_code_redemption,
  cancel_code_redemption, decline_code_redemption, end_friendship, cancel_pending_to, clear_pending,
  expire, expire_of, check_friend, check_each, send_mutual_checks, change_account,
}
use cordia.People.Friends.Handlers.{
  on_pending_snapshot, on_request_incoming, on_accepted, on_declined, on_redemption_accepted,
  on_redemption_declined, befriend, on_redemption_incoming, on_friend_removed,
  on_friend_request_cancelled, on_code_redemption_cancelled, on_mutual_check, on_mutual_check_reply,
}
use cordia.People.Friends.Schedule.{
  Action, send, accept_request, cancel_request, decline_request, accept_redemption,
  cancel_redemption, decline_redemption, create_code, revoke_code, redeem, unfriend, cancel_to,
  Message, snapshot, request_incoming, accepted, declined, redemption_accepted, redemption_declined,
  redemption_incoming, removed, request_cancelled, redemption_cancelled, mutual_check, mutual_reply,
  FriendEvent, user_does, beacon_says, native, fires, checks_due, account_changes, identity_changes,
  act, hear, friends_step, friends_run,
}

abbrev reads_list : NativeCall → Bool
reads_list (list_friends user) = true
reads_list _ = false

-- Whether a reading of the list is outstanding.
abbrev is_due : List NativeCall → Bool
is_due calls = any reads_list calls

-- The list is shown, or is to be read.
abbrev pub IsSynced : Friends → Type 0
IsSynced s = (is_due s.calls ≡ true) ⊎ (s.friends ≡ s.stored_friends)

-- Both lists stay, and calls are only added.
abbrev Grows : Friends → Friends → Type 0
Grows s t =
    (t.friends ≡ s.friends)
    × (t.stored_friends ≡ s.stored_friends)
    × ((is_due s.calls ≡ true) → is_due t.calls ≡ true)

is_due-append :
    (calls : List NativeCall) (c : NativeCall)
    → is_due calls ≡ true
    → is_due (calls ++ c ∷ []) ≡ true
is_due-append [] c h = absurd (ground arith)
is_due-append (b ∷ calls) c h = ground (arith, is_due-append calls c)

is_due_last :
    (calls : List NativeCall) (user : Option Str) → is_due (calls ++ list_friends user ∷ []) ≡ true
is_due_last [] user = refl
is_due_last (b ∷ calls) user = ground (arith, is_due_last calls user)

Grows-IsSynced : (s t : Friends) → Grows s t → IsSynced s → IsSynced t
Grows-IsSynced s t g (inl due) = inl (g.2 due)
Grows-IsSynced s t g (inr same) = inr (g.0 ∙ same ∙ sym g.1)

act-Grows : (a : Action) (s : Friends) → Grows s (act a s)
unfolding act send_friend_request accept_friend_request cancel_friend_request decline_friend_request
    create_friend_code revoke_friend_code redeem_friend_code add_owner accept_code_redemption
    cancel_code_redemption decline_code_redemption end_friendship cancel_pending_to clear_pending
act-Grows (send none to) s = ground arith
act-Grows (send (some r) to) s = ground (arith, is_due-append s.calls (add_friend true to))
act-Grows (accept_request ok from) s = ground (arith, is_due-append s.calls (add_friend false from))
act-Grows (cancel_request ok to) s = ground arith
act-Grows (decline_request ok from) s = ground arith
act-Grows (create_code none) s = ground arith
act-Grows (create_code (some code)) s = ground arith
act-Grows (revoke_code ok) s = ground arith
act-Grows (redeem seen none) s = ground arith
act-Grows (redeem seen (some none)) s = ground arith
act-Grows (redeem seen (some (some owner))) s = ground arith
act-Grows (accept_redemption ok redeemer) s =
    ground (arith, is_due-append s.calls (add_friend false redeemer))
act-Grows (cancel_redemption ok owner) s = ground arith
act-Grows (decline_redemption ok redeemer) s = ground arith
act-Grows (unfriend user) s = ground (arith, is_due-append s.calls (remove_friend user))
act-Grows (cancel_to beacon request_ok redemption_ok user) s = ground arith

hear-Grows : (m : Message) (s : Friends) → Grows s (hear m s)
unfolding hear on_pending_snapshot on_request_incoming on_accepted on_declined
    on_redemption_accepted on_redemption_declined befriend on_redemption_incoming on_friend_removed
    on_friend_request_cancelled on_code_redemption_cancelled on_mutual_check on_mutual_check_reply
hear-Grows (snapshot i o r) s = ground arith
hear-Grows (request_incoming x) s = ground arith
hear-Grows (accepted by to name at) s = ground (arith, is_due-append s.calls (add_friend false by))
hear-Grows (redemption_accepted by to name at) s =
    ground (arith, is_due-append s.calls (add_friend false by))
hear-Grows (declined by to) s = ground arith
hear-Grows (redemption_declined by to) s = ground arith
hear-Grows (redemption_incoming x) s = ground arith
hear-Grows (removed from) s = ground (arith, is_due-append s.calls (remove_friend from))
hear-Grows (request_cancelled from) s = ground arith
hear-Grows (redemption_cancelled redeemer) s = ground arith
hear-Grows (mutual_check from) s = ground (arith, is_due-append s.calls (remove_friend from))
hear-Grows (mutual_reply from ok) s = ground (arith, is_due-append s.calls (remove_friend from))

check_each-Grows :
    (force : Bool) (now : ℕ) (ids : List Str) (s : Friends) → Grows s (check_each force now ids s)
unfolding check_each check_friend
check_each-Grows force now [] s = ground arith
check_each-Grows force now (id ∷ ids) s =
    ground (arith, check_each-Grows force now ids (check_friend force now id s))

expire_of-Grows : (timer : ℕ) (o : Option Str) (s : Friends) → Grows s (expire_of timer o s)
unfolding expire_of
expire_of-Grows timer none s = ground arith
expire_of-Grows timer (some user) s = ground arith

-- No reading of the list fails, and the account stays.
abbrev pub Succeeds : Bool → List NativeCall → Type 0
Succeeds ok (list_friends user ∷ calls) = ok ≡ true
Succeeds ok _ = Unit

abbrev pub ReadsWell : FriendEvent → Friends → Type 0
ReadsWell (native ok) s = Succeeds ok s.calls
ReadsWell (account_changes account) s = truthy_option account ≡ true
ReadsWell _ s = Unit

abbrev pub IsReading : List FriendEvent → Friends → Type 0
IsReading [] s = Unit
IsReading (e ∷ es) s = ReadsWell e s × IsReading es (friends_step e s)

native_ends-IsSynced :
    (ok : Bool) (calls : List NativeCall) (s : Friends)
    → s.calls ≡ calls
    → Succeeds ok calls
    → IsSynced s
    → IsSynced (native_ends ok calls s)
unfolding native_ends answer
native_ends-IsSynced ok [] s e f h = h
native_ends-IsSynced true (add_friend forgets user ∷ calls) s e f h = inl (is_due_last calls _)
native_ends-IsSynced true (remove_friend user ∷ calls) s e f h = inl (is_due_last calls _)
native_ends-IsSynced true (list_friends none ∷ calls) s e f h = inr refl
native_ends-IsSynced true (list_friends (some user) ∷ calls) s e f h = inr refl
native_ends-IsSynced false (list_friends user ∷ calls) s e f h = absurd (ground (arith, f))
native_ends-IsSynced false (add_friend forgets user ∷ calls) s e f (inl due) =
    inl (sym (ap is_due e) ∙ due)
native_ends-IsSynced false (add_friend forgets user ∷ calls) s e f (inr same) = inr same
native_ends-IsSynced false (remove_friend user ∷ calls) s e f (inl due) =
    inl (sym (ap is_due e) ∙ due)
native_ends-IsSynced false (remove_friend user ∷ calls) s e f (inr same) = inr same

friends_step-IsSynced :
    (e : FriendEvent) (s : Friends) → ReadsWell e s → IsSynced s → IsSynced (friends_step e s)
unfolding friends_step change_account send_mutual_checks expire
friends_step-IsSynced (user_does a) s f h = Grows-IsSynced s (act a s) (act-Grows a s) h
friends_step-IsSynced (beacon_says m) s f h = Grows-IsSynced s (hear m s) (hear-Grows m s) h
friends_step-IsSynced (native ok) s f h = native_ends-IsSynced ok s.calls s refl f h
friends_step-IsSynced (fires timer) s f h =
    Grows-IsSynced s (expire timer s) (expire_of-Grows timer (lookup timer s.armed) s) h
friends_step-IsSynced (checks_due connected force now) s f h =
    Grows-IsSynced s (send_mutual_checks connected force now s)
      (ground (arith, check_each-Grows force now s.friends s)) h
friends_step-IsSynced (account_changes account) s f h = rw f (inl (is_due_last s.calls none))
friends_step-IsSynced (identity_changes user) s f h =
    Grows-IsSynced s (record s { identity = user }) (ground arith) h

friends_run-IsSynced :
    (es : List FriendEvent) (s : Friends)
    → IsReading es s
    → IsSynced s
    → IsSynced (friends_run es s)
unfolding friends_run
friends_run-IsSynced [] s f h = h
friends_run-IsSynced (e ∷ es) s f h =
    friends_run-IsSynced es (friends_step e s) f.1 (friends_step-IsSynced e s f.0 h)

-- Whatever the user, the beacon and the timers do, and whichever changes of the native list fail:
-- if no reading of the list fails and the account stays, then once no native call is outstanding,
-- the friends that are shown are those stored.
pub friends_run-synced :
    (es : List FriendEvent) (s : Friends)
    → IsReading es s
    → IsSynced s
    → (friends_run es s).calls ≡ []
    → (friends_run es s).friends ≡ (friends_run es s).stored_friends
friends_run-synced es s f h e = elim (friends_run-IsSynced es s f h) [
  | inl due ↦ absurd (ground (arith, due, ap is_due e))
  | inr same ↦ same
]

pub on_accepted-IsSynced :
    (by to : Str) (name at : Option Str) (s : Friends)
    → IsSynced s
    → IsSynced (on_accepted by to name at s)
unfolding hear
on_accepted-IsSynced by to name at s h =
    Grows-IsSynced s (on_accepted by to name at s) (hear-Grows (accepted by to name at) s) h

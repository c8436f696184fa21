-- ===== src/People/Friends/Hidden.antt =====
-- What leaves a user hidden that is not shown as pending: actions, messages and the answers of the native process.
use cordia.People.Friends.Tied.{IsTied, contains-including}
use cordia.Base.{
  Bool, List, Str, [], arith, contains, contains-keep, false, inl, inr, lookup, nat_eq, none, not,
  refl, some, str_eq, true, ℕ, ◌==◌, ◌∷◌, ◌≡◌, ◌≢◌, ◌⊎◌,
}
use cordia.People.Friends.{
  Friends, NativeCall, add_friend, remove_friend, list_friends, answer, native_ends, without,
}
use cordia.People.Friends.Actions.{
  send_friend_request, accept_friend_request, cancel_friend_request, decline_friend_request,
  create_friend_code, revoke_friend_code, redeem_friend_code, add_owner, accept_code_redemption,
  cancel_code_redemption, decline_code_redemption, end_friendship, cancel_pending_to, clear_pending,
  check_friend, check_each,
}
use cordia.People.Friends.Handlers.{
  on_pending_snapshot, on_request_incoming, on_accepted, on_declined, on_redemption_accepted,
  on_redemption_declined, befriend, on_redemption_incoming, on_friend_removed,
  on_friend_request_cancelled, on_code_redemption_cancelled, on_mutual_check, on_mutual_check_reply,
}
use cordia.People.Friends.Schedule.{
  Action, send, accept_request, cancel_request, decline_request, accept_redemption,
  cancel_redemption, decline_redemption, create_code, revoke_code, redeem, unfriend, cancel_to,
  Message, snapshot, request_incoming, accepted, declined, redemption_accepted, redemption_declined,
  redemption_incoming, removed, request_cancelled, redemption_cancelled, mutual_check, mutual_reply,
  FriendEvent, user_does, fires, act, hear, friends_step,
}

module _ (u : Str) where
  -- `u` is not shown as pending, and a snapshot cannot bring it back.
  pub record IsHidden (s : Friends) : Type 0 where
    pub tied : IsTied s
    pub cancelled : contains s.recently_cancelled u ≡ true
    pub absent : contains s.pending_outgoing u ≡ false

  -- The timers stay, and `u` is not added to the pending ones.
  abbrev Leaves : Friends → Friends → Type 0
  Leaves s t =
      (t.recently_cancelled ≡ s.recently_cancelled)
      × (t.timeouts ≡ s.timeouts)
      × (t.armed ≡ s.armed)
      × (t.next_timer ≡ s.next_timer)
      × (contains s.recently_cancelled u ≡ true
          → contains s.pending_outgoing u ≡ false
          → contains t.pending_outgoing u ≡ false)

  pub Leaves-IsHidden : (s t : Friends) → Leaves s t → IsHidden s → IsHidden t
  Leaves-IsHidden s t (rc, timeouts, armed, next, out) h = record {
    tied = rw (timeouts, armed, next) h.tied;
    cancelled = rw rc h.cancelled;
    absent = out h.cancelled h.absent;
  }

  -- The event does not ask `u` anew, nor is it the timer of `u`.
  abbrev asks : Action → Bool
  asks (send result to) = to == u
  asks (redeem seen (some (some owner))) = owner == u
  asks _ = false

  abbrev pub Spares : FriendEvent → Friends → Type 0
  Spares (user_does a) s = asks a ≡ false
  Spares (fires timer) s = lookup u s.timeouts ≢ some timer
  Spares _ s = Unit

  abbrev pub IsSparing : List FriendEvent → Friends → Type 0
  IsSparing [] s = Unit
  IsSparing (e ∷ es) s = Spares e s × IsSparing es (friends_step e s)

  pub without_u :
      (v : Str) (ids : List Str) → contains ids u ≡ false → contains (without v ids) u ≡ false
  without_u v ids h = ground (arith, contains-keep (λ id. not (id == v)) u ids)

  -- An action leaves the timers, or is a cancellation.
  abbrev Acts : Friends → Friends → Type 0
  Acts s t = Leaves s t ⊎ ((v : Str) × (t ≡ clear_pending v s))

  pub act-Acts : (a : Action) (s : Friends) → asks a ≡ false → Acts s (act a s)
  unfolding act send_friend_request accept_friend_request cancel_friend_request
      decline_friend_request create_friend_code revoke_friend_code redeem_friend_code add_owner
      accept_code_redemption cancel_code_redemption decline_code_redemption end_friendship
      cancel_pending_to
  act-Acts (send none to) s f = inl (ground arith)
  act-Acts (send (some r) to) s f =
      inl (ground (arith, f, contains-including u to s.pending_outgoing))
  act-Acts (accept_request ok from) s f = inl (ground arith)
  act-Acts (cancel_request ok to) s f = inl (ground (arith, without_u to s.pending_outgoing))
  act-Acts (decline_request ok from) s f = inl (ground arith)
  act-Acts (create_code none) s f = inl (ground arith)
  act-Acts (create_code (some code)) s f = inl (ground arith)
  act-Acts (revoke_code ok) s f = inl (ground arith)
  act-Acts (redeem seen none) s f = inl (ground arith)
  act-Acts (redeem seen (some none)) s f = inl (ground arith)
  act-Acts (redeem seen (some (some owner))) s f =
      inl (ground (arith, f, contains-including u owner s.pending_outgoing))
  act-Acts (accept_redemption ok redeemer) s f = inl (ground arith)
  act-Acts (cancel_redemption ok owner) s f =
      inl (ground (arith, without_u owner s.pending_outgoing))
  act-Acts (decline_redemption ok redeemer) s f = inl (ground arith)
  act-Acts (unfriend user) s f = inl (ground arith)
  act-Acts (cancel_to false request_ok redemption_ok v) s f = inl (ground arith)
  act-Acts (cancel_to true true redemption_ok v) s f = inr (v, refl)
  act-Acts (cancel_to true false true v) s f = inr (v, refl)
  act-Acts (cancel_to true false false v) s f = inr (v, refl)

  pub hear-Leaves : (m : Message) (s : Friends) → Leaves s (hear m s)
  unfolding hear on_pending_snapshot on_request_incoming on_accepted on_declined
      on_redemption_accepted on_redemption_declined befriend on_redemption_incoming
      on_friend_removed on_friend_request_cancelled on_code_redemption_cancelled on_mutual_check
      on_mutual_check_reply
  hear-Leaves (snapshot i o r) s =
      ground (arith, contains-keep (λ id. not (contains s.recently_cancelled id)) u o)
  hear-Leaves (request_incoming x) s = ground arith
  hear-Leaves (accepted by to name at) s = ground (arith, without_u by s.pending_outgoing)
  hear-Leaves (redemption_accepted by to name at) s =
      ground (arith, without_u by s.pending_outgoing)
  hear-Leaves (declined by to) s = ground (arith, without_u by s.pending_outgoing)
  hear-Leaves (redemption_declined by to) s = ground (arith, without_u by s.pending_outgoing)
  hear-Leaves (redemption_incoming x) s = ground arith
  hear-Leaves (removed from) s = ground arith
  hear-Leaves (request_cancelled from) s = ground arith
  hear-Leaves (redemption_cancelled redeemer) s = ground arith
  hear-Leaves (mutual_check from) s = ground arith
  hear-Leaves (mutual_reply from ok) s = ground arith

  pub check_each-Leaves :
      (force : Bool) (now : ℕ) (ids : List Str) (s : Friends)
      → Leaves s (check_each force now ids s)
  unfolding check_each check_friend
  check_each-Leaves force now [] s = ground arith
  check_each-Leaves force now (id ∷ ids) s =
      ground (arith, check_each-Leaves force now ids (check_friend force now id s))

  pub native_ends-Leaves :
      (ok : Bool) (calls : List NativeCall) (s : Friends) → Leaves s (native_ends ok calls s)
  unfolding native_ends answer
  native_ends-Leaves ok [] s = ground arith
  native_ends-Leaves true (add_friend forgets user ∷ calls) s = ground arith
  native_ends-Leaves true (remove_friend user ∷ calls) s = ground arith
  native_ends-Leaves true (list_friends none ∷ calls) s = ground arith
  native_ends-Leaves true (list_friends (some v) ∷ calls) s =
      ground (arith, without_u v s.pending_outgoing)
  native_ends-Leaves false (list_friends none ∷ calls) s = ground arith
  native_ends-Leaves false (list_friends (some v) ∷ calls) s =
      ground (arith, without_u v s.pending_outgoing)
  native_ends-Leaves false (add_friend forgets user ∷ calls) s = ground arith
  native_ends-Leaves false (remove_friend user ∷ calls) s = ground arith

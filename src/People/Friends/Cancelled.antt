-- ===== src/People/Friends/Cancelled.antt =====
-- A request that was cancelled does not come back with a snapshot, until its timer fires.
use cordia.People.Friends.Tied.{IsTied, clear_pending-IsTied, contains-including, expire_of-IsTied}
use cordia.People.Friends.Hidden.{
  IsHidden, IsSparing, Leaves-IsHidden, Spares, act-Acts, check_each-Leaves, hear-Leaves,
  native_ends-Leaves, without_u,
}
use cordia.Base.{
  Bool, List, Option, Str, [], arith, contains, contains-keep, false, inl, inr, lookup, nat_eq,
  none, not, refl, some, str_beq_iff, str_eq, subst, sym, true, ℕ, ◌==◌, ◌||◌, ◌∷◌, ◌≡◌, ◌≢◌,
}
use cordia.People.Friends.{
  PendingIncomingItem, CodeRedemptionItem, Friends, native_ends, including, without,
}
use cordia.People.Friends.Actions.{
  SendFriendRequestResult, send_friend_request, cancel_pending_to, clear_pending, expire, expire_of,
  send_mutual_checks, change_account,
}
use cordia.People.Friends.Handlers.{on_pending_snapshot}
use cordia.People.Friends.Schedule.{
  FriendEvent, user_does, beacon_says, native, fires, checks_due, account_changes, identity_changes,
  act, hear, friends_step, friends_run,
}

module _ (u : Str) where
  clear_pending-IsHidden : (v : Str) (s : Friends) → IsHidden u s → IsHidden u (clear_pending v s)
  unfolding clear_pending
  clear_pending-IsHidden v s h = record {
    tied = unfold clear_pending in clear_pending-IsTied v s h.tied;
    cancelled = ground (arith, contains-including u v s.recently_cancelled, h.cancelled);
    absent = without_u u v s.pending_outgoing h.absent;
  }

  -- The timer of another user leaves `u` hidden.
  expire_of-IsHidden :
      (timer : ℕ) (o : Option Str) (s : Friends)
      → lookup timer s.armed ≡ o
      → lookup u s.timeouts ≢ some timer
      → IsHidden u s
      → IsHidden u (expire_of timer o s)
  expire_of-IsHidden timer none s e other h = unfold expire_of in h
  expire_of-IsHidden timer (some v) s e other h = record {
    tied = expire_of-IsTied timer (some v) s e h.tied;
    cancelled =
        unfold expire_of in
        ground (
          arith,
          contains-keep (λ id. not (id == v)) u s.recently_cancelled,
          str_beq_iff u v,
          h.cancelled,
          h.tied timer v e,
        );
    absent = unfold expire_of in h.absent;
  }

  friends_step-IsHidden :
      (e : FriendEvent) (s : Friends) → Spares u e s → IsHidden u s → IsHidden u (friends_step e s)
  unfolding friends_step send_mutual_checks change_account expire
  friends_step-IsHidden (user_does a) s f h = elim (act-Acts u a s f) [
    | inl leaves ↦ Leaves-IsHidden u s (act a s) leaves h
    | inr (v, e) ↦ subst (IsHidden u) (sym e) (clear_pending-IsHidden v s h)
  ]
  friends_step-IsHidden (beacon_says m) s f h = Leaves-IsHidden u s (hear m s) (hear-Leaves u m s) h
  friends_step-IsHidden (native ok) s f h =
      Leaves-IsHidden u s (native_ends ok s.calls s) (native_ends-Leaves u ok s.calls s) h
  friends_step-IsHidden (fires timer) s f h =
      expire_of-IsHidden timer (lookup timer s.armed) s refl f h
  friends_step-IsHidden (checks_due connected force now) s f h =
      Leaves-IsHidden u s (send_mutual_checks connected force now s)
        (ground (arith, check_each-Leaves u force now s.friends s)) h
  friends_step-IsHidden (account_changes account) s f h =
      Leaves-IsHidden u s (change_account account s) (ground arith) h
  friends_step-IsHidden (identity_changes user) s f h =
      Leaves-IsHidden u s (record s { identity = user }) (ground arith) h

  friends_run-IsHidden :
      (es : List FriendEvent) (s : Friends)
      → IsSparing u es s
      → IsHidden u s
      → IsHidden u (friends_run es s)
  unfolding friends_run
  friends_run-IsHidden [] s f h = h
  friends_run-IsHidden (e ∷ es) s f h =
      friends_run-IsHidden es (friends_step e s) f.1 (friends_step-IsHidden e s f.0 h)

  cancel_pending_to-IsHidden :
      (request_ok redemption_ok : Bool) (s : Friends)
      → IsTied s
      → IsHidden u (cancel_pending_to true request_ok redemption_ok u s)
  unfolding cancel_pending_to clear_pending
  cancel_pending_to-IsHidden request_ok redemption_ok s h = ground (arith, cleared)
    where
      cleared : IsHidden u (clear_pending u s)
      cleared = record {
        tied = clear_pending-IsTied u s h;
        cancelled = ground (arith, contains-including u u s.recently_cancelled, str_beq_iff u u);
        absent =
            ground
              (arith, contains-keep (λ id. not (id == u)) u s.pending_outgoing, str_beq_iff u u);
      }

  -- After the user has cancelled what is pending to `u`, whatever the beacon answered: in every
  -- schedule in which `u` is not asked anew and its timer does not fire, `u` is not shown as pending,
  -- also after a snapshot that names it, if each armed timer was the one of its user before.
  pub friends_run-hidden :
      (es : List FriendEvent) (request_ok redemption_ok : Bool) (s : Friends)
      → IsTied s
      → IsSparing u es (cancel_pending_to true request_ok redemption_ok u s)
      → contains
          (friends_run es (cancel_pending_to true request_ok redemption_ok u s)).pending_outgoing
          u
        ≡ false
  friends_run-hidden es request_ok redemption_ok s h f =
      (friends_run-IsHidden es _ f (cancel_pending_to-IsHidden request_ok redemption_ok s h)).absent

  -- A new request to `u` that goes out while the timer of a cancelled one runs is shown as pending
  -- only until the next snapshot: then it is not, though the snapshot names it.
  pub resent_hidden :
      (request_ok redemption_ok : Bool) (result : SendFriendRequestResult) (s : Friends)
      (i : List PendingIncomingItem) (o : List Str) (r : List CodeRedemptionItem)
      → (result.accepted || result.is_mutual) ≡ false
      → (result.sent || result.already_sent) ≡ true
      → let again =
          send_friend_request
            (some result)
            u
            (cancel_pending_to true request_ok redemption_ok u s) in
        (contains again.pending_outgoing u ≡ true)
        × (contains (on_pending_snapshot i o r again).pending_outgoing u ≡ false)
  unfolding send_friend_request on_pending_snapshot cancel_pending_to clear_pending
  resent_hidden request_ok redemption_ok result s i o r fresh went = ground (
    arith,
    fresh,
    went,
    contains-including u u (without u s.pending_outgoing),
    contains-including u u s.recently_cancelled,
    contains-keep (λ id. not (contains (including u s.recently_cancelled) id)) u o,
    str_beq_iff u u,
  )

-- ===== src/People/Friends/Actions.antt =====
-- What the user does with friends and requests: the operations of the context's value.
use cordia.Base.{
  Bool, Dict, List, Option, Str, [], contains, false, if◌then◌else◌, lookup, ltb, nat_eq, none, not,
  put, remove, some, str_eq, true, truthy, truthy_option, ℕ, ◌&&◌, ◌+◌, ◌==◌, ◌||◌, ◌∷◌,
}
use cordia.People.Friends.{
  Friends, add_friend, remove_friend, list_friends, call, without, including, without_incoming,
  without_redemption, forget_outgoing,
}

pub record SendFriendRequestResult : Type 0 where
  pub accepted : Bool
  pub is_mutual : Bool
  pub sent : Bool
  pub already_sent : Bool

unfoldable pub send_friend_request : Option SendFriendRequestResult → Str → Friends → Friends
send_friend_request none to s = s
send_friend_request (some result) to s =
    if result.accepted || result.is_mutual
    then call (add_friend true to) s
    else if result.sent || result.already_sent
    then record s { pending_outgoing = including to s.pending_outgoing }
    else s

unfoldable pub accept_friend_request : Bool → Str → Friends → Friends
accept_friend_request ok from s =
    if ok
    then call (add_friend false from)
        (record s { pending_incoming = without_incoming from s.pending_incoming })
    else s

unfoldable pub cancel_friend_request : Bool → Str → Friends → Friends
cancel_friend_request ok to s = if ok then forget_outgoing to s else s

unfoldable pub decline_friend_request : Bool → Str → Friends → Friends
decline_friend_request ok from s =
    if ok then record s { pending_incoming = without_incoming from s.pending_incoming } else s

unfoldable pub create_friend_code : Option Str → Friends → Friends
create_friend_code none s = s
create_friend_code (some code) s = record s { my_friend_code = some code }

unfoldable pub revoke_friend_code : Bool → Friends → Friends
revoke_friend_code ok s = if ok then record s { my_friend_code = none } else s

-- `seen` are the friends of the render in which the call was made.
unfoldable pub add_owner : List Str → Option Str → Friends → Friends
add_owner seen none s = s
add_owner seen (some owner) s =
    if truthy owner && not (contains seen owner)
    then record s { pending_outgoing = including owner s.pending_outgoing }
    else s

-- The answer's `code_owner_id` may be missing.
unfoldable pub redeem_friend_code : List Str → Option (Option Str) → Friends → Friends
redeem_friend_code seen none s = s
redeem_friend_code seen (some owner) s =
    if truthy_option s.identity then add_owner seen owner s else s

unfoldable pub accept_code_redemption : Bool → Str → Friends → Friends
accept_code_redemption ok redeemer s =
    if ok
    then call (add_friend false redeemer)
        (record s { redemptions = without_redemption redeemer s.redemptions })
    else s

unfoldable pub cancel_code_redemption : Bool → Str → Friends → Friends
cancel_code_redemption ok owner s = if ok then forget_outgoing owner s else s

unfoldable pub decline_code_redemption : Bool → Str → Friends → Friends
decline_code_redemption ok redeemer s =
    if ok then record s { redemptions = without_redemption redeemer s.redemptions } else s

-- removeFriend: the beacon's answer does not matter.
unfoldable pub end_friendship : Str → Friends → Friends
end_friendship user s = call (remove_friend user) s

-- clearTimeout(existing)
abbrev pub disarm : Option ℕ → Dict ℕ Str → Dict ℕ Str
disarm none armed = armed
disarm (some timer) armed = remove timer armed

-- clearPending of cancelPendingTo
unfoldable pub clear_pending : Str → Friends → Friends
clear_pending user s = record s {
  pending_outgoing = without user s.pending_outgoing;
  recently_cancelled = including user s.recently_cancelled;
  timeouts = put user s.next_timer s.timeouts;
  armed = put s.next_timer user (disarm (lookup user s.timeouts) s.armed);
  next_timer = s.next_timer + 1;
}

-- With a beacon; the request is cancelled, or else the redemption, or neither is there.
unfoldable pub cancel_pending_to : Bool → Bool → Bool → Str → Friends → Friends
cancel_pending_to beacon request_ok redemption_ok user s =
    if not beacon
    then s
    else if request_ok
    then clear_pending user s
    else if redemption_ok
    then clear_pending user s
    else clear_pending user s

-- The callback of a timer.
unfoldable pub expire_of : ℕ → Option Str → Friends → Friends
expire_of timer none s = s
expire_of timer (some user) s = record s {
  recently_cancelled = without user s.recently_cancelled;
  timeouts = remove user s.timeouts;
  armed = remove timer s.armed;
}

unfoldable pub expire : ℕ → Friends → Friends
expire timer s = expire_of timer (lookup timer s.armed) s

abbrev pub cooldown_ms : ℕ
cooldown_ms = 30000

abbrev last_or_never : Option ℕ → ℕ
last_or_never none = 0
last_or_never (some at) = at

abbrev is_self : Option Str → Str → Bool
is_self none id = false
is_self (some me) id = id == me

-- One friend of the loop of sendMutualChecks.
unfoldable pub check_friend : Bool → ℕ → Str → Friends → Friends
check_friend force now id s =
    if not (truthy id)
      || is_self s.identity id
      || (not force && ltb now (last_or_never (lookup id s.last_mutual_check) + cooldown_ms))
    then s
    else record s {
      last_mutual_check = put id now s.last_mutual_check;
      checks = (id, now) ∷ s.checks;
    }

unfoldable pub check_each : Bool → ℕ → List Str → Friends → Friends
check_each force now [] s = s
check_each force now (id ∷ ids) s = check_each force now ids (check_friend force now id s)

unfoldable pub send_mutual_checks : Bool → Bool → ℕ → Friends → Friends
send_mutual_checks connected force now s = if connected then check_each force now s.friends s else s

-- The effect that runs when the account changes: without one, everything shown is dropped.
unfoldable pub change_account : Option Str → Friends → Friends
change_account account s = if truthy_option account then call (list_friends none) s else record s {
  identity = none;
  friends = [];
  pending_incoming = [];
  pending_outgoing = [];
  redemptions = [];
  my_friend_code = none;
}

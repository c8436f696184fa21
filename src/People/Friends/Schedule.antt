-- ===== src/People/Friends/Schedule.antt =====
-- Everything that may happen to the state of friends, in any order.
use cordia.Base.{Bool, List, Option, Str, [], nat_eq, str_eq, ℕ, ◌∷◌}
use cordia.People.Friends.{Friends, PendingIncomingItem, CodeRedemptionItem, native_ends}
use cordia.People.Friends.Actions.{
  SendFriendRequestResult, send_friend_request, accept_friend_request, cancel_friend_request,
  decline_friend_request, create_friend_code, revoke_friend_code, redeem_friend_code,
  accept_code_redemption, cancel_code_redemption, decline_code_redemption, end_friendship,
  cancel_pending_to, expire, send_mutual_checks, change_account,
}
use cordia.People.Friends.Handlers.{
  on_pending_snapshot, on_request_incoming, on_accepted, on_declined, on_redemption_accepted,
  on_redemption_declined, on_redemption_incoming, on_friend_removed, on_friend_request_cancelled,
  on_code_redemption_cancelled, on_mutual_check, on_mutual_check_reply,
}

-- What the user does, with the beacon's answer.
pub data Action : Type 0 where
  send : Option SendFriendRequestResult → Str → Action
  accept_request cancel_request decline_request accept_redemption cancel_redemption
        decline_redemption :
      Bool → Str → Action
  create_code : Option Str → Action
  revoke_code : Bool → Action
  redeem : List Str → Option (Option Str) → Action
  unfriend : Str → Action
  cancel_to : Bool → Bool → Bool → Str → Action

-- What the beacon says.
pub data Message : Type 0 where
  snapshot : List PendingIncomingItem → List Str → List CodeRedemptionItem → Message
  request_incoming : PendingIncomingItem → Message
  accepted redemption_accepted : Str → Str → Option Str → Option Str → Message
  declined redemption_declined : Str → Str → Message
  redemption_incoming : CodeRedemptionItem → Message
  removed request_cancelled redemption_cancelled mutual_check : Str → Message
  mutual_reply : Str → Bool → Message

pub data FriendEvent : Type 0 where
  user_does : Action → FriendEvent
  beacon_says : Message → FriendEvent
  native : Bool → FriendEvent
  fires : ℕ → FriendEvent
  checks_due : Bool → Bool → ℕ → FriendEvent
  account_changes identity_changes : Option Str → FriendEvent

unfoldable pub act : Action → Friends → Friends
act (send result to) s = send_friend_request result to s
act (accept_request ok from) s = accept_friend_request ok from s
act (cancel_request ok to) s = cancel_friend_request ok to s
act (decline_request ok from) s = decline_friend_request ok from s
act (create_code code) s = create_friend_code code s
act (revoke_code ok) s = revoke_friend_code ok s
act (redeem seen owner) s = redeem_friend_code seen owner s
act (accept_redemption ok redeemer) s = accept_code_redemption ok redeemer s
act (cancel_redemption ok owner) s = cancel_code_redemption ok owner s
act (decline_redemption ok redeemer) s = decline_code_redemption ok redeemer s
act (unfriend user) s = end_friendship user s
act (cancel_to beacon request_ok redemption_ok user) s =
    cancel_pending_to beacon request_ok redemption_ok user s

unfoldable pub hear : Message → Friends → Friends
hear (snapshot incoming outgoing redemptions) s =
    on_pending_snapshot incoming outgoing redemptions s
hear (request_incoming x) s = on_request_incoming x s
hear (accepted from to name created_at) s = on_accepted from to name created_at s
hear (redemption_accepted owner redeemer name created_at) s =
    on_redemption_accepted owner redeemer name created_at s
hear (declined from to) s = on_declined from to s
hear (redemption_declined owner redeemer) s = on_redemption_declined owner redeemer s
hear (redemption_incoming x) s = on_redemption_incoming x s
hear (removed from) s = on_friend_removed from s
hear (request_cancelled from) s = on_friend_request_cancelled from s
hear (redemption_cancelled redeemer) s = on_code_redemption_cancelled redeemer s
hear (mutual_check from) s = on_mutual_check from s
hear (mutual_reply from ok) s = on_mutual_check_reply from ok s

unfoldable pub friends_step : FriendEvent → Friends → Friends
friends_step (user_does a) s = act a s
friends_step (beacon_says m) s = hear m s
friends_step (native ok) s = native_ends ok s.calls s
friends_step (fires timer) s = expire timer s
friends_step (checks_due connected force now) s = send_mutual_checks connected force now s
friends_step (account_changes account) s = change_account account s
friends_step (identity_changes user) s = record s { identity = user }

unfoldable pub friends_run : List FriendEvent → Friends → Friends
friends_run [] s = s
friends_run (e ∷ es) s = friends_run es (friends_step e s)

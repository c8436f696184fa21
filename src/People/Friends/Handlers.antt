-- ===== src/People/Friends/Handlers.antt =====
-- What the beacon says: the listeners of the context. A list that a snapshot lacks is empty.
use cordia.Base.{
  Bool, Dict, List, Option, Str, [], any, contains, false, if◌then◌else◌, keep, nat_eq, none, not,
  some, str_eq, true, truthy, ◌&&◌, ◌++◌, ◌==◌, ◌||◌, ◌∷◌,
}
use cordia.People.Profiles.{RemoteProfile}
use cordia.People.Friends.{
  Friends, PendingIncomingItem, CodeRedemptionItem, add_friend, remove_friend, call, without,
  without_incoming, without_redemption, forget_outgoing, learn_name,
}

-- The loop at the end of onPendingSnapshot.
unfoldable pub learn_incoming :
    List PendingIncomingItem → Dict Str RemoteProfile → Dict Str RemoteProfile
learn_incoming [] profiles = profiles
learn_incoming (x ∷ items) profiles = learn_incoming items (
    if truthy x.from_user_id
    then learn_name x.from_user_id x.from_display_name x.from_account_created_at 0 profiles
    else profiles)

unfoldable pub on_pending_snapshot :
    List PendingIncomingItem → List Str → List CodeRedemptionItem → Friends → Friends
on_pending_snapshot incoming outgoing redemptions s = record s {
  pending_incoming = incoming;
  pending_outgoing = keep (λ id. not (contains s.recently_cancelled id)) outgoing;
  redemptions = redemptions;
  profiles = learn_incoming incoming s.profiles;
}

unfoldable pub on_request_incoming : PendingIncomingItem → Friends → Friends
on_request_incoming x s =
    if truthy x.from_user_id
    then record s {
      pending_incoming =
          if any (λ r. r.from_user_id == x.from_user_id) s.pending_incoming
          then s.pending_incoming
          else s.pending_incoming ++ x ∷ [];
      profiles =
          learn_name x.from_user_id x.from_display_name x.from_account_created_at 0 s.profiles;
    }
    else s

-- identityUserIdRef.current === user
abbrev pub is_me : Option Str → Str → Bool
is_me none user = false
is_me (some me) user = me == user

-- What both kinds of acceptance do.
unfoldable pub befriend : Str → Option Str → Option Str → Friends → Friends
befriend by name created_at s = call (add_friend false by) (record s {
  pending_outgoing = without by s.pending_outgoing;
  profiles = learn_name by name created_at 1 s.profiles;
})

unfoldable pub on_accepted : Str → Str → Option Str → Option Str → Friends → Friends
on_accepted from to name created_at s =
    if is_me s.identity to then befriend from name created_at s else s

unfoldable pub on_declined : Str → Str → Friends → Friends
on_declined from to s = if is_me s.identity to then forget_outgoing from s else s

unfoldable pub on_redemption_accepted : Str → Str → Option Str → Option Str → Friends → Friends
on_redemption_accepted owner redeemer name created_at s =
    if is_me s.identity redeemer then befriend owner name created_at s else s

unfoldable pub on_redemption_declined : Str → Str → Friends → Friends
on_redemption_declined owner redeemer s =
    if is_me s.identity redeemer then forget_outgoing owner s else s

unfoldable pub on_redemption_incoming : CodeRedemptionItem → Friends → Friends
on_redemption_incoming x s =
    if truthy x.redeemer_user_id
      && not (any (λ r. r.redeemer_user_id == x.redeemer_user_id) s.redemptions)
    then record s { redemptions = s.redemptions ++ x ∷ [] }
    else s

unfoldable pub on_friend_removed : Str → Friends → Friends
on_friend_removed from s = if truthy from then call (remove_friend from) s else s

unfoldable pub on_friend_request_cancelled : Str → Friends → Friends
on_friend_request_cancelled from s =
    if truthy from
    then record s { pending_incoming = without_incoming from s.pending_incoming }
    else s

unfoldable pub on_code_redemption_cancelled : Str → Friends → Friends
on_code_redemption_cancelled redeemer s =
    if truthy redeemer
    then record s { redemptions = without_redemption redeemer s.redemptions }
    else s

-- A friend asks whether we are friends too; a stale entry of our own is removed.
unfoldable pub on_mutual_check : Str → Friends → Friends
on_mutual_check from s =
    if not (truthy from) || is_me s.identity from
    then s
    else if contains s.friends from
    then record s { replies = (from, true) ∷ s.replies }
    else call (remove_friend from) (record s { replies = (from, false) ∷ s.replies })

unfoldable pub on_mutual_check_reply : Str → Bool → Friends → Friends
on_mutual_check_reply from accepted s =
    if not (truthy from) || accepted then s else call (remove_friend from) s

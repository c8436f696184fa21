-- ===== src/People/Friends/Tests.antt =====
-- Runs of the state of friends, and its theorems at an input.
use cordia.Base.{
  List, Str, [], arith, contains, false, inr, lookup, nat_eq, none, put, refl, remove, some, str_eq,
  true, units, ◌∷◌, ◌≡◌,
}
use cordia.People.Profiles.{RemoteProfile}
use cordia.People.Friends.{Friends, remove_friend, native_ends, answer}
use cordia.People.Friends.Actions.{
  SendFriendRequestResult, send_friend_request, cancel_pending_to, clear_pending, expire, expire_of,
  end_friendship, send_mutual_checks, check_each, check_friend,
}
use cordia.People.Friends.Handlers.{on_pending_snapshot, on_accepted}
use cordia.People.Friends.Schedule.{
  FriendEvent, user_does, beacon_says, native, fires, unfriend, snapshot, act, hear, friends_step,
  friends_run,
}
use cordia.People.Friends.Cancelled.{friends_run-hidden, resent_hidden}
use cordia.People.Friends.Synced.{friends_run-synced}
use cordia.People.Friends.Cooldown.{IsSpaced, IsLogged, send_mutual_checks-IsSpaced}
use cordia.People.Friends.Accepted.{answers, all_well, on_accepted-friend}

abbrev ann : Str
ann = units "ann"

abbrev bob : Str
bob = units "bob"

abbrev me : Str
me = units "me"

-- `bob` is a friend, and `ann` was asked.
abbrev start : Friends
start = record {
  identity = some me;
  friends = bob ∷ [];
  pending_incoming = [];
  pending_outgoing = ann ∷ [];
  redemptions = [];
  my_friend_code = none;
  recently_cancelled = [];
  timeouts = [];
  armed = [];
  next_timer = 0;
  last_mutual_check = [];
  checks = [];
  replies = [];
  profiles = [];
  stored_friends = bob ∷ [];
  calls = [];
}

abbrev was_sent : SendFriendRequestResult
was_sent = record { accepted = false; is_mutual = false; sent = true; already_sent = false }

abbrev names_ann : FriendEvent
names_ann = beacon_says (snapshot [] (ann ∷ bob ∷ []) [])

abbrev cancelled : Friends
cancelled = record start {
  pending_outgoing = [];
  recently_cancelled = ann ∷ [];
  timeouts = (ann, 0) ∷ [];
  armed = (0, ann) ∷ [];
  next_timer = 1;
}

cancelled_lem : cancel_pending_to true false true ann start ≡ cancelled
unfolding cancel_pending_to clear_pending lookup put
cancelled_lem = refl

-- A snapshot shows `ann` again only after the timer.
snapshots :
    ((friends_run (names_ann ∷ []) cancelled).pending_outgoing ≡ bob ∷ [])
    × ((friends_run (fires 0 ∷ names_ann ∷ []) cancelled).pending_outgoing ≡ ann ∷ bob ∷ [])
unfolding friends_run friends_step hear on_pending_snapshot expire expire_of lookup remove
snapshots = (refl, refl)

friends_run-hidden_example :
    contains
      (friends_run (names_ann ∷ []) (cancel_pending_to true false true ann start)).pending_outgoing
      ann
    ≡ false
friends_run-hidden_example =
    friends_run-hidden ann (names_ann ∷ []) false true start
      (λ timer v e. absurd (unfold lookup in ground (arith, e))) (tt, tt)

resent_hidden_example :
    let again =
      send_friend_request (some was_sent) ann (cancel_pending_to true true false ann start) in
    (contains again.pending_outgoing ann ≡ true)
    × (contains (on_pending_snapshot [] (ann ∷ []) [] again).pending_outgoing ann ≡ false)
resent_hidden_example = resent_hidden ann true false was_sent start [] (ann ∷ []) [] refl refl

-- `bob` goes: the native list changes, and is read again.
abbrev farewell : List FriendEvent
farewell = user_does (unfriend bob) ∷ native true ∷ native true ∷ []

friends_run-synced_example :
    (friends_run farewell start).friends ≡ (friends_run farewell start).stored_friends
unfolding friends_run friends_step act native_ends answer end_friendship
friends_run-synced_example =
    friends_run-synced farewell start (tt, (tt, (refl, tt))) (inr refl) refl

on_accepted-friend_example :
    let t = on_accepted ann me none none (record start { calls = remove_friend ann ∷ [] }) in
    let end = friends_run (all_well (answers t.calls)) t in
    (end.calls ≡ []) × (contains end.friends ann ≡ true)
on_accepted-friend_example =
    on_accepted-friend ann me none none (record start { calls = remove_friend ann ∷ [] }) refl
      (inr refl)

abbrev checked : Friends
checked = record start { last_mutual_check = (bob, 40000) ∷ []; checks = (bob, 40000) ∷ [] }

-- Half a cooldown later nothing is sent.
too_early : (send_mutual_checks true false 55000 checked).checks ≡ (bob, 40000) ∷ []
unfolding send_mutual_checks check_each check_friend lookup put
too_early = refl

send_mutual_checks-IsSpaced_example :
    IsSpaced (send_mutual_checks true false 70000 checked).checks
    × IsLogged (send_mutual_checks true false 70000 checked)
send_mutual_checks-IsSpaced_example =
    send_mutual_checks-IsSpaced true 70000 checked (λ id. refl)
      ((λ before e. absurd (unfold lookup in ground (arith, e))), tt)

abbrev ann_profile : RemoteProfile
ann_profile = record {
  user_id = ann;
  display_name = units "Ann";
  secondary_name = none;
  show_secondary = false;
  rev = 0;
  account_created_at = none;
  avatar_data_url = none;
  avatar_rev = 0;
}

abbrev known : Friends
known = record start { profiles = (ann, ann_profile) ∷ [] }

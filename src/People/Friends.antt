-- ===== src/People/Friends.antt =====
-- src/contexts/FriendsContext.tsx: friends and pending requests. A call of the beacon is an
-- argument, its answer, and `none` or `false` if it throws; without a beacon url the operations
-- throw before the call, with the same effect. A native call (`add_friend`, `remove_friend`,
-- `list_friends` of src-tauri/src/main.rs) is kept in `calls` until its event; its answer is taken
-- up when it ends. What goes to the beacon beside the user ids is left out.
pub mod Actions
pub mod Handlers
pub mod Schedule
pub mod Tied
pub mod Hidden
pub mod Cancelled
pub mod Synced
pub mod Cooldown
pub mod Accepted
pub mod Names
mod Tests
use cordia.Base.{
  Bool, Dict, List, Option, Str, [], contains, false, if◌then◌else◌, keep, nat_eq, none, not, some,
  str_eq, true, ℕ, ◌++◌, ◌==◌, ◌||◌, ◌∷◌,
}
use cordia.People.Profiles.{RemoteProfile, ProfileUpdate, apply_update}

pub record PendingIncomingItem : Type 0 where
  pub from_user_id : Str
  pub from_display_name : Option Str
  pub from_account_created_at : Option Str

pub record CodeRedemptionItem : Type 0 where
  pub redeemer_user_id : Str
  pub redeemer_display_name : Str
  pub redeemer_account_created_at : Option Str

-- A call of `addFriend` that is to forget a pending request when it returns is marked; the reading
-- of the list that ends it carries the user.
pub data NativeCall : Type 0 where
  add_friend : Bool → Str → NativeCall
  remove_friend : Str → NativeCall
  list_friends : Option Str → NativeCall

-- `identity` is identityUserIdRef, `recently_cancelled` the set and `timeouts` the map of
-- cancelPendingTo; `armed` holds the timers that have not fired, with the user of each callback.
-- `stored_friends` is the native list. `checks` and `replies` are the mutual checks and replies that were
-- sent, the last one first, a check with its time.
pub record Friends : Type 0 where
  pub identity : Option Str
  pub friends : List Str
  pub pending_incoming : List PendingIncomingItem
  pub pending_outgoing : List Str
  pub redemptions : List CodeRedemptionItem
  pub my_friend_code : Option Str
  pub recently_cancelled : List Str
  pub timeouts : Dict Str ℕ
  pub armed : Dict ℕ Str
  pub next_timer : ℕ
  pub last_mutual_check : Dict Str ℕ
  pub checks : Dict Str ℕ
  pub replies : Dict Str Bool
  pub profiles : Dict Str RemoteProfile
  pub stored_friends : List Str
  pub calls : List NativeCall

-- prev.filter((id) => id !== user)
abbrev pub without : Str → List Str → List Str
without user ids = keep (λ id. not (id == user)) ids

-- prev.includes(user) ? prev : [...prev, user]
abbrev pub including : Str → List Str → List Str
including user ids = if contains ids user then ids else ids ++ user ∷ []

abbrev pub call : NativeCall → Friends → Friends
call c s = record s { calls = s.calls ++ c ∷ [] }

abbrev pub without_incoming : Str → List PendingIncomingItem → List PendingIncomingItem
without_incoming user items = keep (λ r. not (r.from_user_id == user)) items

abbrev pub without_redemption : Str → List CodeRedemptionItem → List CodeRedemptionItem
without_redemption user items = keep (λ r. not (r.redeemer_user_id == user)) items

abbrev pub forget_outgoing : Str → Friends → Friends
forget_outgoing user s = record s { pending_outgoing = without user s.pending_outgoing }

-- What `add_friend` and `remove_friend` do to the native list.
abbrev native_add : Str → List Str → List Str
native_add user ids = if contains ids user then ids else ids ++ user ∷ []

abbrev native_remove : Str → List Str → List Str
native_remove user ids = keep (λ id. not (id == user)) ids

abbrev then_forget : Bool → Str → Option Str
then_forget true user = some user
then_forget false user = none

abbrev forget : Option Str → Friends → Friends
forget none s = s
forget (some user) s = forget_outgoing user s

-- A call ends. After a change the list is read again (refreshFriends); an error of a change ends its
-- chain, and one of the list leaves no friends.
unfoldable pub answer : Bool → NativeCall → Friends → Friends
answer true (add_friend forgets user) s =
    call (list_friends (then_forget forgets user))
      (record s { stored_friends = native_add user s.stored_friends })
answer true (remove_friend user) s =
    call (list_friends none) (record s { stored_friends = native_remove user s.stored_friends })
answer true (list_friends user) s = forget user (record s { friends = s.stored_friends })
answer false (list_friends user) s = forget user (record s { friends = [] })
answer false _ s = s

-- The oldest call ends.
unfoldable pub native_ends : Bool → List NativeCall → Friends → Friends
native_ends ok [] s = s
native_ends ok (c ∷ calls) s = answer ok c (record s { calls = calls })

abbrev pub is_given : Option Str → Bool
is_given none = false
is_given (some s) = true

abbrev some_or_undefined : Option Str → Option (Option Str)
some_or_undefined none = none
some_or_undefined (some at) = some (some at)

abbrev or_empty : Option Str → Str
or_empty none = []
or_empty (some name) = name

-- The update that a friend message carries.
unfoldable pub name_update : Str → Option Str → Option Str → ℕ → ProfileUpdate
name_update user name created_at rev = record {
  user_id = user;
  display_name = or_empty name;
  secondary_name = none;
  show_secondary = false;
  rev = rev;
  account_created_at = some_or_undefined created_at;
  avatar_data_url = none;
  avatar_rev = none;
}

-- applyRemoteProfile, if the message has a name or a date.
unfoldable pub learn_name :
    Str → Option Str → Option Str → ℕ → Dict Str RemoteProfile → Dict Str RemoteProfile
learn_name user name created_at rev profiles =
    if is_given name || is_given created_at
    then apply_update (name_update user name created_at rev) profiles
    else profiles

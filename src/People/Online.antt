-- ===== src/People/Online.antt =====
-- src/contexts/PresenceContext.tsx: which users are online in a house, and on which server each is
-- active. An `active_signing_pubkey` that is null is `none`.
pub mod Level
use cordia.Base.{
  Bool, Dict, Option, Str, [], false, if◌then◌else◌, lookup, nat_eq, none, put, put_all, remove,
  some, str_eq, true, ◌==◌,
}

abbrev pub House : Type 0
House = Dict Str (Option Str)

abbrev pub PresenceByHouse : Type 0
PresenceByHouse = Dict Str House

pub data PresenceLevel : Type 0 where
  active online offline in_call : PresenceLevel

abbrev pub house_of : Option House → House
house_of none = []
house_of (some house) = house

-- The loop over the users of a snapshot; users that it does not name stay.
unfoldable pub apply_snapshot : Str → Dict Str (Option Str) → PresenceByHouse → PresenceByHouse
apply_snapshot pk users prev = put pk (put_all (house_of (lookup pk prev)) users) prev

abbrev pub is_known : Option (Option Str) → Bool
is_known none = false
is_known (some at) = true

unfoldable pub apply_update : Str → Str → Bool → Option Str → PresenceByHouse → PresenceByHouse
apply_update pk user is_online at prev =
    let house = house_of (lookup pk prev) in
    if is_online
    then put pk (put user at house) prev
    else if is_known (lookup user house)
    then put pk (remove user house) prev
    else prev

-- A status of a user in a house.
unfoldable pub status_of : Str → Str → PresenceByHouse → Option (Option Str)
status_of pk user s = lookup user (house_of (lookup pk s))

unfoldable pub get_level : Str → Str → Bool → PresenceByHouse → PresenceLevel
get_level pk user is_in_call s = elim (status_of pk user s) [
  | none ↦ offline
  | some at ↦
      if is_in_call
      then in_call
      else elim at [ none ↦ online | some key ↦ if key == pk then active else online ]
]

-- ===== src/People/Online/Level.antt =====
-- What updates and snapshots do to the status of a user.
use cordia.Base.{
  Bool, Dict, HasDistinctKeys, Option, Str, arith, if◌then◌else◌, lookup, lookup-put,
  lookup-put_all, lookup-remove, nat_eq, none, put, put_all, remove, some, str_beq_iff, str_eq,
  ◌&&◌, ◌==◌, ◌≡◌,
}
use cordia.People.Online.{PresenceByHouse, house_of, apply_snapshot, apply_update, status_of}

-- After an update, the user is known with the place that it gave if it says online, and unknown if
-- it says offline; every other user of every house is as before.
status_of-apply_update :
    (pk user : Str) (is_online : Bool) (at : Option Str) (house other : Str) (s : PresenceByHouse)
    → status_of house other (apply_update pk user is_online at s) ≡ (
        if pk == house && user == other
        then (if is_online then some at else none)
        else status_of house other s)
unfolding apply_update status_of
status_of-apply_update pk user is_online at house other s =
    let h = house_of (lookup pk s) in
    ground (
      arith,
      lookup-put pk house (put user at h) s,
      lookup-put pk house (remove user h) s,
      lookup-put user other at h,
      lookup-remove user other h,
      str_beq_iff pk house,
      str_beq_iff user other,
    )

-- A snapshot that names each user once sets the status of the users that it names, and leaves every
-- other user as before, also one that it no longer names.
pub status_of-apply_snapshot :
    (pk : Str) (users : Dict Str (Option Str)) (house other : Str) (s : PresenceByHouse)
    → HasDistinctKeys users
    → status_of house other (apply_snapshot pk users s) ≡ (
        if pk == house
        then elim (lookup other users) [ none ↦ status_of house other s | some at ↦ some at ]
        else status_of house other s)
unfolding apply_snapshot status_of
status_of-apply_snapshot pk users house other s distinct =
    let h = house_of (lookup pk s) in
    ground (
      arith,
      lookup-put pk house (put_all h users) s,
      lookup-put_all other h users distinct,
      str_beq_iff pk house,
    )

-- ===== src/People/Friends/Names.antt =====
-- What a message about friends does to the profile of its sender.
use cordia.Base.{
  Dict, HasDistinctKeys, Str, [], arith, false, lookup, lookup-put, nat_eq, none, put,
  put-HasDistinctKeys, refl, some, str_beq_iff, str_eq, true, truthy, ◌<◌, ◌∷◌, ◌≡◌,
}
use cordia.People.Profiles.{RemoteProfile, apply_update, merged, next_profile, saved}
use cordia.People.Friends.{Friends, PendingIncomingItem, name_update, learn_name}
use cordia.People.Friends.Handlers.{on_request_incoming}

saved_absent :
    (id : Str) (profiles : Dict Str RemoteProfile)
    → lookup id profiles ≡ none
    → lookup id (saved profiles) ≡ none
unfolding saved lookup
saved_absent id [] e = refl
saved_absent id ((j, q) ∷ profiles) e = ground (arith, saved_absent id profiles)

saved_nameless :
    (id : Str) (p : RemoteProfile) (profiles : Dict Str RemoteProfile)
    → HasDistinctKeys profiles
    → lookup id profiles ≡ some p
    → truthy p.display_name ≡ false
    → lookup id (saved profiles) ≡ none
unfolding saved lookup
saved_nameless id p [] d e n = absurd (ground arith)
saved_nameless id p ((j, q) ∷ profiles) d e n =
    ground
      (arith, saved_nameless id p profiles d.1, saved_absent id profiles, str_beq_iff j id, d.0)

-- A friend request that comes with the sender's date and no name: if the sender's known profile has
-- revision 0, it loses its name, and the profiles that are saved lack the sender; if it has a greater
-- revision, its name stays.
on_request_incoming_nameless :
    (u at : Str) (p : RemoteProfile) (s : Friends)
    → truthy u ≡ true
    → HasDistinctKeys s.profiles
    → lookup u s.profiles ≡ some p
    → let x : PendingIncomingItem = record {
      from_user_id = u;
      from_display_name = none;
      from_account_created_at = some at;
    } in
      let after = (on_request_incoming x s).profiles in
      (p.rev ≡ 0 → lookup u (saved after) ≡ none)
      × (0 < p.rev
          → (q : RemoteProfile) × (lookup u after ≡ some q) × (q.display_name ≡ p.display_name))
unfolding on_request_incoming learn_name name_update apply_update merged next_profile
on_request_incoming_nameless u at p s t d e =
    let q = next_profile (name_update u none (some at) 0) p in
    let after = put u q s.profiles in
    let found : lookup u after ≡ some q =
      ground (arith, lookup-put u u q s.profiles, str_beq_iff u u) in
    rw (t, e)
      (
        (λ z.
            saved_nameless u q after (put-HasDistinctKeys u q s.profiles d) found
              (ground (arith, z))),
        (λ pos. (q, found, ground (arith, pos))),
      )

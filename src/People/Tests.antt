-- ===== src/People/Tests.antt =====
-- Concrete runs of profiles, voice chats and presence.
use cordia.Base.{
  Dict, Str, [], arith, false, lookup, nat_eq, none, refl, some, str_eq, true, units, ℕ, ◌∷◌, ◌≡◌,
}
use cordia.People.Profiles.{RemoteProfile, ProfileUpdate, apply_update}
use cordia.People.Profiles.Merge.{IsRace, lookup-apply_update_swap}
use cordia.People.Voice.{VoicePresenceByServer}
use cordia.People.Online.{PresenceByHouse}

abbrev update : Str → ℕ → ℕ → ProfileUpdate
update name rev avatar_rev = record {
  user_id = units "ann";
  display_name = name;
  secondary_name = none;
  show_secondary = false;
  rev = rev;
  account_created_at = none;
  avatar_data_url = some (some name);
  avatar_rev = some avatar_rev;
}

abbrev ann : RemoteProfile
ann = record {
  user_id = units "ann";
  display_name = units "Ann";
  secondary_name = none;
  show_secondary = true;
  rev = 4;
  account_created_at = some (units "2024");
  avatar_data_url = none;
  avatar_rev = 2;
}

abbrev profiles : Dict Str RemoteProfile
profiles = (units "ann", ann) ∷ []

race : IsRace (update (units "A") 3 7) (update (units "B") 5 6)
race = record {
  same_user = refl;
  revs = λ e. absurd (omega (arith, e));
  m = 7;
  n = 6;
  u_avatar = refl;
  v_avatar = refl;
  avatars = λ e. absurd (omega (arith, e));
  url = some (units "A");
  other_url = some (units "B");
  u_url = refl;
  v_url = refl;
  u_created = refl;
  v_created = refl;
}

lookup-apply_update_swap_example :
    lookup
      (units "ann")
      (apply_update (update (units "A") 3 7) (apply_update (update (units "B") 5 6) profiles))
    ≡ lookup
        (units "ann")
        (apply_update (update (units "B") 5 6) (apply_update (update (units "A") 3 7) profiles))
lookup-apply_update_swap_example =
    lookup-apply_update_swap (update (units "A") 3 7) (update (units "B") 5 6) profiles
      (units "ann") race

abbrev voices : VoicePresenceByServer
voices = (units "k", (units "c", units "ann" ∷ units "bob" ∷ []) ∷ []) ∷ []

abbrev houses : PresenceByHouse
houses = (units "k", (units "ann", some (units "k")) ∷ (units "bob", none) ∷ []) ∷ []

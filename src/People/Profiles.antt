-- ===== src/People/Profiles.antt =====
-- src/contexts/RemoteProfilesContext.tsx: updates of other users' profiles, each with a revision of
-- the names and one of the avatar. A field of an update that may be undefined is an Option; one
-- that may also be null is an Option of an Option.
pub mod Merge
use cordia.Base.{
  Bool, Dict, Option, Str, [], false, if◌then◌else◌, leb, lookup, nat_eq, none, put, some, str_eq,
  truthy, ℕ, ◌∷◌,
}

pub record RemoteProfile : Type 0 where
  pub user_id : Str
  pub display_name : Str
  pub secondary_name : Option Str
  pub show_secondary : Bool
  pub rev : ℕ
  pub account_created_at : Option Str
  pub avatar_data_url : Option Str
  pub avatar_rev : ℕ

pub record ProfileUpdate : Type 0 where
  pub user_id : Str
  pub display_name : Str
  pub secondary_name : Option Str
  pub show_secondary : Bool
  pub rev : ℕ
  pub account_created_at : Option (Option Str)
  pub avatar_data_url : Option (Option Str)
  pub avatar_rev : Option ℕ

-- A user without a profile yet takes the update's names.
unfoldable pub first_profile : ProfileUpdate → RemoteProfile
first_profile u = record {
  user_id = u.user_id;
  display_name = u.display_name;
  secondary_name = u.secondary_name;
  show_secondary = u.show_secondary;
  rev = u.rev;
  account_created_at = elim u.account_created_at [ none ↦ none | some at ↦ at ];
  avatar_data_url = elim u.avatar_rev [
    | none ↦ none
    | some rev ↦ elim u.avatar_data_url [ none ↦ none | some url ↦ url ]
  ];
  avatar_rev = elim u.avatar_rev [ none ↦ 0 | some rev ↦ rev ];
}

abbrev pub rev_newer : ProfileUpdate → RemoteProfile → Bool
rev_newer u p = leb p.rev u.rev

abbrev pub avatar_rev_newer : ProfileUpdate → RemoteProfile → Bool
avatar_rev_newer u p = elim u.avatar_rev [ none ↦ false | some rev ↦ leb p.avatar_rev rev ]

abbrev or_kept : Option (Option Str) → Option Str → Option Str
or_kept none old = old
or_kept (some new) old = new

abbrev rev_or_kept : Option ℕ → ℕ → ℕ
rev_or_kept none old = old
rev_or_kept (some new) old = new

-- Names and avatar are taken each by its own revision.
unfoldable pub next_profile : ProfileUpdate → RemoteProfile → RemoteProfile
next_profile u p = record {
  user_id = u.user_id;
  display_name = if rev_newer u p then u.display_name else p.display_name;
  secondary_name = if rev_newer u p then u.secondary_name else p.secondary_name;
  show_secondary = if rev_newer u p then u.show_secondary else p.show_secondary;
  rev = if rev_newer u p then u.rev else p.rev;
  account_created_at = or_kept u.account_created_at p.account_created_at;
  avatar_data_url =
      if avatar_rev_newer u p
      then or_kept u.avatar_data_url p.avatar_data_url
      else p.avatar_data_url;
  avatar_rev = if avatar_rev_newer u p then rev_or_kept u.avatar_rev p.avatar_rev else p.avatar_rev;
}

unfoldable pub merged : ProfileUpdate → Option RemoteProfile → RemoteProfile
merged u none = first_profile u
merged u (some p) = next_profile u p

-- applyUpdate
unfoldable pub apply_update : ProfileUpdate → Dict Str RemoteProfile → Dict Str RemoteProfile
apply_update u profiles = put u.user_id (merged u (lookup u.user_id profiles)) profiles

-- A row of `known_profiles`; the application's own type has all fields optional but the name.
pub record KnownProfile : Type 0 where
  pub display_name : Str
  pub secondary_name : Option Str
  pub show_secondary : Bool
  pub rev : ℕ
  pub account_created_at : Option Str
  pub avatar_data_url : Option Str
  pub avatar_rev : ℕ

unfoldable pub known_to_remote : Str → KnownProfile → RemoteProfile
known_to_remote user_id k = record {
  user_id = user_id;
  display_name = k.display_name;
  secondary_name = k.secondary_name;
  show_secondary = k.show_secondary;
  rev = k.rev;
  account_created_at = k.account_created_at;
  avatar_data_url = k.avatar_data_url;
  avatar_rev = k.avatar_rev;
}

unfoldable pub remote_to_known : RemoteProfile → KnownProfile
remote_to_known p = record {
  display_name = p.display_name;
  secondary_name = p.secondary_name;
  show_secondary = p.show_secondary;
  rev = p.rev;
  account_created_at = p.account_created_at;
  avatar_data_url = p.avatar_data_url;
  avatar_rev = p.avatar_rev;
}

-- What the debounced save writes, and what the load at the next start reads.
unfoldable pub saved : Dict Str RemoteProfile → Dict Str KnownProfile
saved [] = []
saved ((id, p) ∷ profiles) =
    let rest = saved profiles in
    if truthy p.display_name then (id, remote_to_known p) ∷ rest else rest

unfoldable pub loaded : Dict Str KnownProfile → Dict Str RemoteProfile
loaded [] = []
loaded ((id, k) ∷ known) =
    let rest = loaded known in if truthy id then (id, known_to_remote id k) ∷ rest else rest

-- ===== src/People/Profiles/Merge.antt =====
-- Revisions only grow, and updates may come in any order.
use cordia.Base.{
  Bool-cases, Dict, Option, Str, [], ap, arith, if◌then◌else◌, inl, inr, lookup, lookup-put, max,
  nat_eq, none, refl, some, str_beq_iff, str_eq, true, truthy, ℕ, ◌&&◌, ◌==◌, ◌∙◌, ◌∷◌, ◌≡◌, ◌≢◌,
}
use cordia.People.Profiles.{
  RemoteProfile, ProfileUpdate, first_profile, next_profile, merged, apply_update, saved, loaded,
  remote_to_known, known_to_remote,
}

-- The revisions of a user, 0 where there is no profile.
abbrev pub rev_of : Option RemoteProfile → ℕ
rev_of none = 0
rev_of (some p) = p.rev

abbrev pub avatar_rev_of : Option RemoteProfile → ℕ
avatar_rev_of none = 0
avatar_rev_of (some p) = p.avatar_rev

abbrev pub update_avatar_rev : ProfileUpdate → ℕ
update_avatar_rev u = elim u.avatar_rev [ none ↦ 0 | some n ↦ n ]

merged-revs :
    (u : ProfileUpdate) (o : Option RemoteProfile)
    → ((merged u o).rev ≡ max (rev_of o) u.rev)
      × ((merged u o).avatar_rev ≡ max (avatar_rev_of o) (update_avatar_rev u))
unfolding merged first_profile next_profile
merged-revs u none = ground arith
merged-revs u (some p) = ground arith

-- An update leaves its user with the greater of the two revisions of the names, and with the
-- greater of the two of the avatar.
revs-apply_update :
    (u : ProfileUpdate) (profiles : Dict Str RemoteProfile)
    → let before = lookup u.user_id profiles in
      let after = lookup u.user_id (apply_update u profiles) in
      (rev_of after ≡ max (rev_of before) u.rev)
      × (avatar_rev_of after ≡ max (avatar_rev_of before) (update_avatar_rev u))
unfolding apply_update
revs-apply_update u profiles =
    let before = lookup u.user_id profiles in
    ground (
      arith,
      lookup-put u.user_id u.user_id (merged u before) profiles,
      str_beq_iff u.user_id u.user_id,
      merged-revs u before,
    )

-- Two updates of one user that carry different revisions and both bring a picture.
pub record IsRace (u v : ProfileUpdate) : Type 0 where
  pub same_user : u.user_id ≡ v.user_id
  pub revs : u.rev ≢ v.rev
  pub m : ℕ
  pub n : ℕ
  pub u_avatar : u.avatar_rev ≡ some m
  pub v_avatar : v.avatar_rev ≡ some n
  pub avatars : m ≢ n
  pub url : Option Str
  pub other_url : Option Str
  pub u_url : u.avatar_data_url ≡ some url
  pub v_url : v.avatar_data_url ≡ some other_url
  pub u_created : u.account_created_at ≡ none
  pub v_created : v.account_created_at ≡ none

merged-swap :
    (u v : ProfileUpdate) (o : Option RemoteProfile)
    → IsRace u v
    → merged u (some (merged v o)) ≡ merged v (some (merged u o))
unfolding merged first_profile next_profile
merged-swap u v none r = ground (
  arith, r.same_user, r.revs, r.u_avatar, r.v_avatar, r.avatars, r.u_url, r.v_url, r.u_created,
  r.v_created,
)
merged-swap u v (some p) r = ground (
  arith, r.same_user, r.revs, r.u_avatar, r.v_avatar, r.avatars, r.u_url, r.v_url, r.u_created,
  r.v_created,
)

lookup-apply_update :
    (u : ProfileUpdate) (k : Str) (profiles : Dict Str RemoteProfile)
    → lookup k (apply_update u profiles)
      ≡ (if u.user_id == k then some (merged u (lookup u.user_id profiles)) else lookup k profiles)
unfolding apply_update
lookup-apply_update u k profiles =
    lookup-put u.user_id k (merged u (lookup u.user_id profiles)) profiles

-- Two updates of one user that carry different revisions, bring a picture each and no creation time
-- lead to the same profiles in either order.
pub lookup-apply_update_swap :
    (u v : ProfileUpdate) (profiles : Dict Str RemoteProfile) (id : Str)
    → IsRace u v
    → lookup id (apply_update u (apply_update v profiles))
      ≡ lookup id (apply_update v (apply_update u profiles))
lookup-apply_update_swap u v profiles id r = ground (
  arith,
  lookup-apply_update u id (apply_update v profiles),
  lookup-apply_update v u.user_id profiles,
  lookup-apply_update v id (apply_update u profiles),
  lookup-apply_update u v.user_id profiles,
  lookup-apply_update u id profiles,
  lookup-apply_update v id profiles,
  str_beq_iff u.user_id u.user_id,
  merged-swap u v (lookup u.user_id profiles) r,
  r.same_user,
)

loaded-saved_cons :
    (j : Str) (q : RemoteProfile) (profiles : Dict Str RemoteProfile)
    → loaded (saved ((j, q) ∷ profiles)) ≡ (
        if truthy q.display_name && truthy j
        then (j, known_to_remote j (remote_to_known q)) ∷ loaded (saved profiles)
        else loaded (saved profiles))
unfolding loaded saved
loaded-saved_cons j q profiles = elim (Bool-cases (truthy q.display_name)) [
  | inl h ↦ rw h refl
  | inr h ↦ rw h refl
]

reload_one :
    (id : Str) (p : RemoteProfile) → p.user_id ≡ id → known_to_remote id (remote_to_known p) ≡ p
unfolding known_to_remote remote_to_known
reload_one id p e = ground arith

-- A profile that has a name and is kept under its user's id comes back as it was from the saved
-- profiles.
lookup-loaded :
    (id : Str) (p : RemoteProfile) (profiles : Dict Str RemoteProfile)
    → lookup id profiles ≡ some p
    → p.user_id ≡ id
    → truthy id ≡ true
    → truthy p.display_name ≡ true
    → lookup id (loaded (saved profiles)) ≡ some p
unfolding lookup loaded saved
lookup-loaded id p [] e own t n = absurd (ground arith)
lookup-loaded id p ((j, q) ∷ profiles) e own t n =
    ap (lookup id) (loaded-saved_cons j q profiles) ∙ elim (Bool-cases (j == id)) [
      | inl h ↦
          let found : q ≡ p = ground arith in
          let here : j ≡ id = (str_beq_iff j id).0 h in
          rw (found, here, n, t, (str_beq_iff id id).1 refl) (ap some (reload_one id p own))
      | inr h ↦ ground (arith, lookup-loaded id p profiles)
    ]

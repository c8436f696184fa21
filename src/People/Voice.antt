-- ===== src/People/Voice.antt =====
-- src/contexts/VoicePresenceContext.tsx: who is in which voice chat. A `Set` is a list of distinct
-- users.
pub mod Rooms
use cordia.Base.{
  Bool, Dict, List, Option, Str, [], any, contains, false, if◌then◌else◌, keep, lookup, nat_eq,
  none, not, put, remove, some, str_eq, true, ◌++◌, ◌==◌, ◌∷◌,
}

-- signing_pubkey -> chat_id -> users
abbrev pub Rooms : Type 0
Rooms = Dict Str (List Str)

abbrev pub VoicePresenceByServer : Type 0
VoicePresenceByServer = Dict Str Rooms

-- x || {} for a record or a set that may be missing
abbrev pub or_empty {ℓ} : {A : Type ℓ} → Option (List A) → List A
or_empty none = []
or_empty (some xs) = xs

-- set.add(user), set.delete(user)
unfoldable pub add : Str → List Str → List Str
add user users = if contains users user then users else users ++ user ∷ []

unfoldable pub delete : Str → List Str → List Str
delete user users = keep (λ x. not (x == user)) users

-- new Set(users)
unfoldable pub distinct : List Str → List Str → List Str
distinct seen [] = seen
distinct seen (user ∷ users) = distinct (add user seen) users

abbrev pub is_nil {ℓ} : {A : Type ℓ} → List A → Bool
is_nil [] = true
is_nil (x ∷ xs) = false

-- A server without rooms is left out.
unfoldable pub put_rooms : Str → Rooms → VoicePresenceByServer → VoicePresenceByServer
put_rooms pk rooms prev = if is_nil rooms then remove pk prev else put pk rooms prev

unfoldable pub put_room : Str → List Str → Rooms → Rooms
put_room chat users rooms = if is_nil users then remove chat rooms else put chat users rooms

-- The room of a chat, empty if there is none.
abbrev pub room : Str → Str → VoicePresenceByServer → List Str
room pk chat prev = or_empty (lookup chat (or_empty (lookup pk prev)))

unfoldable pub apply_update : Str → Str → Str → Bool → VoicePresenceByServer → VoicePresenceByServer
apply_update pk user chat in_voice prev =
    let rooms = or_empty (lookup pk prev) in
    let users = or_empty (lookup chat rooms) in
    if in_voice
    then put pk (put chat (add user users) rooms) prev
    else if contains users user
    then put_rooms pk (put_room chat (delete user users) rooms) prev
    else prev

unfoldable pub apply_snapshot : Str → Str → List Str → VoicePresenceByServer → VoicePresenceByServer
apply_snapshot pk chat users prev =
    put pk (put chat (distinct [] users) (or_empty (lookup pk prev))) prev

-- The loop over the rooms; an empty room goes.
unfoldable pub leave_rooms : Str → Rooms → Rooms
leave_rooms user [] = []
leave_rooms user ((chat, users) ∷ rooms) =
    let rest = leave_rooms user rooms in
    if contains users user
    then (if is_nil (delete user users) then rest else (chat, delete user users) ∷ rest)
    else (chat, users) ∷ rest

abbrev pub is_in_room : Str → Str × List Str → Bool
is_in_room user (chat, users) = contains users user

remove_in : Str → Str → VoicePresenceByServer → Option Rooms → VoicePresenceByServer
remove_in pk user prev none = prev
remove_in pk user prev (some rooms) =
    if any (is_in_room user) rooms then put_rooms pk (leave_rooms user rooms) prev else prev

unfoldable pub remove_user_from_all_rooms :
    Str → Str → VoicePresenceByServer → VoicePresenceByServer
unfolding remove_in
remove_user_from_all_rooms pk user prev = remove_in pk user prev (lookup pk prev)

abbrev pub get_voice_participants : Str → Str → VoicePresenceByServer → List Str
get_voice_participants pk chat prev = room pk chat prev

unfoldable pub is_user_in_voice : Str → Str → VoicePresenceByServer → Bool
is_user_in_voice pk user prev = any (is_in_room user) (or_empty (lookup pk prev))

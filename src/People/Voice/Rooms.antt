-- ===== src/People/Voice/Rooms.antt =====
-- Who is in a room after an update, and who is in any room after a user left them all.
use cordia.Base.{
  Bool, List, Option, Str, [], any, arith, contains, contains-append_one, false, if◌then◌else◌,
  lookup, lookup-put, lookup-remove, nat_eq, none, not, put, refl, some, str_beq_iff, str_eq, true,
  ◌&&◌, ◌==◌, ◌||◌, ◌∷◌, ◌≡◌,
}
use cordia.People.Voice.{
  Rooms, VoicePresenceByServer, or_empty, add, delete, is_nil, put_rooms, put_room, room,
  apply_update, leave_rooms, is_in_room, remove_user_from_all_rooms, remove_in, is_user_in_voice,
}

contains-add :
    (user x : Str) (users : List Str)
    → contains (add user users) x ≡ ((user == x) || contains users x)
unfolding add
contains-add user x users = ground (arith, contains-append_one x user users, str_beq_iff user x)

contains-delete :
    (user x : Str) (users : List Str)
    → contains (delete user users) x ≡ (not (user == x) && contains users x)
unfolding delete
contains-delete user x [] = ground arith
contains-delete user x (y ∷ users) = ground (
  arith,
  contains-delete user x users,
  str_beq_iff user x,
  str_beq_iff y x,
  str_beq_iff y user,
  str_beq_iff user y,
)

lookup-put_rooms :
    (pk k : Str) (rooms : Rooms) (prev : VoicePresenceByServer)
    → or_empty (lookup k (put_rooms pk rooms prev))
      ≡ (if pk == k then rooms else or_empty (lookup k prev))
unfolding put_rooms
lookup-put_rooms pk k [] prev = ground (arith, lookup-remove pk k prev)
lookup-put_rooms pk k (r ∷ rooms) prev = ground (arith, lookup-put pk k (r ∷ rooms) prev)

lookup-put_room :
    (chat k : Str) (users : List Str) (rooms : Rooms)
    → or_empty (lookup k (put_room chat users rooms))
      ≡ (if chat == k then users else or_empty (lookup k rooms))
unfolding put_room
lookup-put_room chat k [] rooms = ground (arith, lookup-remove chat k rooms)
lookup-put_room chat k (x ∷ users) rooms = ground (arith, lookup-put chat k (x ∷ users) rooms)

module _ (pk chat : Str) (users : List Str) (prev : VoicePresenceByServer)
    (server other : Str) where
  pub room-put :
      room server other (put pk (put chat users (or_empty (lookup pk prev))) prev)
      ≡ (if pk == server && chat == other then users else room server other prev)
  room-put =
      let rooms = or_empty (lookup pk prev) in
      ground (
        arith,
        lookup-put pk server (put chat users rooms) prev,
        lookup-put chat other users rooms,
        str_beq_iff pk server,
      )

  room-put_rooms :
      room server other (put_rooms pk (put_room chat users (or_empty (lookup pk prev))) prev)
      ≡ (if pk == server && chat == other then users else room server other prev)
  room-put_rooms =
      let rooms = or_empty (lookup pk prev) in
      ground (
        arith,
        lookup-put_rooms pk server (put_room chat users rooms) prev,
        lookup-put_room chat other users rooms,
        str_beq_iff pk server,
      )

-- After an update the user is in the room of that chat if it says so, and only then; nobody else's
-- place changes, and no other room.
contains-apply_update :
    (pk user chat : Str) (in_voice : Bool) (prev : VoicePresenceByServer) (server other x : Str)
    → contains (room server other (apply_update pk user chat in_voice prev)) x ≡ (
        if pk == server && chat == other && user == x
        then in_voice
        else contains (room server other prev) x)
unfolding apply_update
contains-apply_update pk user chat true prev server other x =
    let users = room pk chat prev in
    ground (
      arith,
      room-put pk chat (add user users) prev server other,
      contains-add user x users,
      str_beq_iff pk server,
      str_beq_iff chat other,
    )
contains-apply_update pk user chat false prev server other x =
    let users = room pk chat prev in
    ground (
      arith,
      room-put_rooms pk chat (delete user users) prev server other,
      contains-delete user x users,
      str_beq_iff pk server,
      str_beq_iff chat other,
      str_beq_iff user x,
    )

leave_rooms-empty :
    (user : Str) (rooms : Rooms) → any (is_in_room user) (leave_rooms user rooms) ≡ false
unfolding leave_rooms
leave_rooms-empty user [] = refl
leave_rooms-empty user ((chat, users) ∷ rooms) =
    ground
      (arith, leave_rooms-empty user rooms, contains-delete user user users, str_beq_iff user user)

-- An empty list has nobody in it.
nobody : (users : List Str) (x : Str) → is_nil users ≡ true → contains users x ≡ false
nobody [] x h = refl
nobody (y ∷ users) x h = absurd (ground arith)

leave_rooms-others :
    (user x : Str) (rooms : Rooms)
    → (user == x) ≡ false
    → any (is_in_room x) (leave_rooms user rooms) ≡ any (is_in_room x) rooms
unfolding leave_rooms
leave_rooms-others user x [] h = refl
leave_rooms-others user x ((chat, users) ∷ rooms) h = ground (
  arith,
  leave_rooms-others user x rooms h,
  contains-delete user x users,
  nobody (delete user users) x,
)

remove_in-voice :
    (pk user : Str) (prev : VoicePresenceByServer) (o : Option Rooms) (server x : Str)
    → lookup pk prev ≡ o
    → any (is_in_room x) (or_empty (lookup server (remove_in pk user prev o))) ≡ (
        if pk == server && user == x
        then false
        else any (is_in_room x) (or_empty (lookup server prev)))
unfolding remove_in
remove_in-voice pk user prev none server x e = ground (arith, str_beq_iff pk server)
remove_in-voice pk user prev (some rooms) server x e = ground (
  arith,
  lookup-put_rooms pk server (leave_rooms user rooms) prev,
  leave_rooms-empty user rooms,
  leave_rooms-others user x rooms,
  str_beq_iff pk server,
  str_beq_iff user x,
)

-- A user that is removed from all rooms of a server is in none of them; who else is in a room of
-- a server, and who is in a room of another, does not change.
is_user_in_voice-remove_user_from_all_rooms :
    (pk user : Str) (prev : VoicePresenceByServer) (server x : Str)
    → is_user_in_voice server x (remove_user_from_all_rooms pk user prev)
      ≡ (if pk == server && user == x then false else is_user_in_voice server x prev)
unfolding is_user_in_voice remove_user_from_all_rooms
is_user_in_voice-remove_user_from_all_rooms pk user prev server x =
    remove_in-voice pk user prev (lookup pk prev) server x refl

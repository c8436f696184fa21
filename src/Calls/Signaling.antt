-- ===== src/Calls/Signaling.antt =====
-- The signaling of voice calls: `handleSignalingMessage` with `createPeerConnectionForPeer`,
-- `connectToSignaling`, `joinVoice` and `leaveVoice` of src/contexts/WebRTCContext.tsx. A handler runs
-- to its next `await` and waits there as a job.
use cordia.Base.{
  Bool, Dict, List, Option, Str, [], false, if◌then◌else◌, lookup, nat_eq, none, not, put, remove,
  some, str_eq, true, ℕ, ◌&&◌, ◌+◌, ◌||◌, ◌∷◌,
}
use cordia.Calls.{
  fresh, Link, PeerInfo, SocketState, connecting, unregister, offer_to, answer_to, Purpose,
  offering, answering, Job, rebuilds, waits, offers, answers, restarts, asks_path, joins, Call,
  await, cleanup_peer_connection, handle_peer_disconnect, find_peer_by_user_id, is_open,
  socket_state, signal,
}
use cordia.Calls.Recovery.{is_there, try_ice_restart}

-- attachAudioTrack
unfoldable pub attach : Option Link → Bool → ℕ → Dict ℕ Link → Dict ℕ Link
attach none has connection links = links
attach (some link) has connection links = put connection (record link { has_track = has }) links

abbrev pub purpose_job : Purpose → Str → Job
purpose_job (offering rest) peer = offers peer rest
purpose_job answering peer = answers peer

-- The end of createPeerConnectionForPeer, setPeers, and the handler up to its next wait; `has` tells
-- whether there is a local stream.
unfoldable pub created : Bool → Str → Str → ℕ → Purpose → Call → Call
created has peer user connection purpose s = await (purpose_job purpose peer) (record s {
  links = attach (lookup connection s.links) has connection s.links;
  peers =
      put peer
        (record { peer_id = peer; user_id = user; connection = connection; has_stream = false })
        s.peers;
})

unfoldable pub rebuild : Bool → Str → Str → ℕ → Purpose → Call → Call
rebuild has peer user connection purpose s =
    if s.is_rebuilding
    then await (waits peer user connection purpose) s
    else await (rebuilds has peer user connection purpose) (record s { is_rebuilding = true })

-- The local stream that createPeerConnectionForPeer finds.
unfoldable pub with_stream : Option Bool → Str → Str → ℕ → Purpose → Call → Call
with_stream none peer user connection purpose s = rebuild false peer user connection purpose s
with_stream (some false) peer user connection purpose s =
    rebuild true peer user connection purpose s
with_stream (some true) peer user connection purpose s = created true peer user connection purpose s

unfoldable pub create_connection : Str → Str → Purpose → Call → Call
create_connection peer user purpose s =
    with_stream s.stream peer user s.next_link purpose (record s {
      links =
          put s.next_link (record { remote_peer = peer; ice = fresh; has_track = false }) s.links;
      next_link = s.next_link + 1;
    })

-- handlePeerDisconnect of the connection that the user had
unfoldable pub replace : Option PeerInfo → Call → Call
replace none s = s
replace (some info) s = handle_peer_disconnect info.peer_id s

-- VoiceRegistered: the loop over the peers, up to the next wait.
unfoldable pub register_next : List (Str × Str) → Call → Call
register_next [] s = s
register_next ((peer, user) ∷ rest) s =
    create_connection peer user (offering rest) (replace (find_peer_by_user_id user s.peers_ref) s)

-- VoiceOffer, from a peer that has a connection, or not
unfoldable pub on_offer : Option PeerInfo → Str → Str → Call → Call
on_offer (some info) from user s = await (answers from) s
on_offer none from user s =
    create_connection from user answering (replace (find_peer_by_user_id user s.peers_ref) s)

-- VoiceAnswer and VoiceIceCandidate
unfoldable pub deliver : Option PeerInfo → Str → Call → Call
deliver none payload s = s
deliver (some info) payload s = record s { delivered = (info.connection, payload) ∷ s.delivered }

pub data VoiceMessage : Type 0 where
  registered : List (Str × Str) → VoiceMessage
  peer_joined peer_left : Str → VoiceMessage
  offer : Str → Str → VoiceMessage
  answer candidate : Str → Str → VoiceMessage

unfoldable pub handle_signaling_message : VoiceMessage → Call → Call
handle_signaling_message (registered others) s = register_next others s
handle_signaling_message (peer_joined peer) s = s
handle_signaling_message (peer_left peer) s = handle_peer_disconnect peer s
handle_signaling_message (offer from user) s = on_offer (lookup from s.peers_ref) from user s
handle_signaling_message (answer from sdp) s = deliver (lookup from s.peers_ref) sdp s
handle_signaling_message (candidate from ice) s = deliver (lookup from s.peers_ref) ice s

unfoldable pub connect_to_signaling : Call → Call
connect_to_signaling s =
    if is_there s.room && is_there s.house && not (is_open (socket_state s.socket s.sockets))
    then record s {
      socket = some s.next_socket;
      sockets = put s.next_socket connecting s.sockets;
      next_socket = s.next_socket + 1;
    }
    else s

unfoldable pub cleanup_all : Dict Str PeerInfo → Call → Call
cleanup_all [] s = s
cleanup_all ((peer, info) ∷ peers) s = cleanup_all peers (cleanup_peer_connection peer info s)

-- ws.onclose = null and ws.close()
abbrev pub drop_socket : Option ℕ → Dict ℕ SocketState → Dict ℕ SocketState
drop_socket none sockets = sockets
drop_socket (some k) sockets = remove k sockets

unfoldable pub leave_voice_internal : Call → Call
leave_voice_internal s =
    let t = cleanup_all s.peers_ref (signal unregister s) in
    record t {
      peers = [];
      peers_ref = [];
      cleaned_peers = [];
      sockets = drop_socket t.socket t.sockets;
      socket = none;
      stream = none;
      peer_id = none;
      user_id = none;
      room = none;
      house = none;
      is_in_voice = false;
    }

unfoldable pub leave_voice : Call → Call
leave_voice s = if s.shown_in_voice then leave_voice_internal s else s

-- joinVoice, up to ensureAudioInitialized; `peer` is the random id.
unfoldable pub join_voice : Str → Str → Str → Str → Call → Call
join_voice room house user peer s =
    await (joins room house user peer) (if s.shown_in_voice then leave_voice_internal s else s)

unfoldable pub joined : Str → Str → Str → Str → Call → Call
joined room house user peer s = connect_to_signaling (record s {
  stream = some true;
  room = some room;
  house = some house;
  peer_id = some peer;
  user_id = some user;
  is_in_voice = true;
})

abbrev pub take_job : ℕ → Call → Call
take_job j s = record s { jobs = remove j s.jobs }

unfoldable pub rebuilt : Bool → Call → Call
rebuilt ok s =
    let ended = record s { is_rebuilding = false } in
    if ok then record ended { stream = some true; meters = s.meters + 1 } else ended

-- What a handler does when its promise is resolved, or rejected.
unfoldable pub resume_job : Option Job → ℕ → Bool → Call → Call
resume_job none j ok s = s
resume_job (some (rebuilds has peer user connection purpose)) j ok s =
    created (ok || has) peer user connection purpose (rebuilt ok (take_job j s))
resume_job (some (waits peer user connection purpose)) j ok s =
    if s.is_rebuilding then s else with_stream s.stream peer user connection purpose (take_job j s)
resume_job (some (offers peer rest)) j ok s =
    register_next rest (if ok then signal (offer_to peer) (take_job j s) else take_job j s)
resume_job (some (answers peer)) j ok s =
    if ok then signal (answer_to peer) (take_job j s) else take_job j s
resume_job (some (restarts peer)) j ok s =
    if ok then signal (offer_to peer) (take_job j s) else take_job j s
resume_job (some (asks_path peer)) j ok s =
    let again = record (take_job j s) { restarted = peer ∷ s.restarted } in
    if ok && is_there (lookup peer s.peers_ref) then try_ice_restart peer again else take_job j s
resume_job (some (joins room house user peer)) j ok s =
    if ok then joined room house user peer (take_job j s) else take_job j s

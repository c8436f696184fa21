-- ===== src/Calls/Schedule.antt =====
-- All that may happen to a voice call, in any order.
use cordia.Base.{
  Bool, List, Option, Str, [], false, if◌then◌else◌, lookup, nat_eq, none, put, remove, some,
  str_eq, true, ℕ, ◌&&◌, ◌+◌, ◌∷◌,
}
use cordia.Calls.{
  IceState, Link, PeerInfo, Timer, after_disconnect, after_failure, reconnect, SocketState, opened,
  register, Call, is_open,
}
use cordia.Calls.Recovery.{is_there, on_ice_state, on_disconnect_timer, on_failed_timer}
use cordia.Calls.Signaling.{
  VoiceMessage, handle_signaling_message, connect_to_signaling, leave_voice, join_voice, resume_job,
}

unfoldable pub fire : Option Timer → Call → Call
fire none s = s
fire (some (after_disconnect peer)) s = on_disconnect_timer peer s
fire (some (after_failure peer)) s = on_failed_timer peer s
fire (some reconnect) s = if s.is_in_voice && is_there s.room then connect_to_signaling s else s

-- The timer n runs out.
unfoldable pub on_timer : ℕ → Call → Call
on_timer n s = fire (lookup n s.armed) (record s { armed = remove n s.armed })

-- ws.onopen: the registration goes through the socket that opened.
unfoldable pub on_socket_open : Option SocketState → ℕ → Call → Call
on_socket_open none k s = s
on_socket_open (some _) k s = record s {
  sockets = put k opened s.sockets;
  sent = register ∷ s.sent;
}

unfoldable pub on_socket_close : Option SocketState → ℕ → Call → Call
on_socket_close none k s = s
on_socket_close (some _) k s =
    let gone = record s { sockets = remove k s.sockets; socket = none } in
    if s.is_in_voice && is_there s.room
    then record gone { armed = put s.next_timer reconnect s.armed; next_timer = s.next_timer + 1 }
    else gone

-- ontrack of the connection
unfoldable pub play : Option PeerInfo → Str → Call → Call
play none peer s = s
play (some info) peer s = record s { peers = put peer (record info { has_stream = true }) s.peers }

unfoldable pub on_track : Option Link → Call → Call
on_track none s = s
on_track (some link) s = play (lookup link.remote_peer s.peers) link.remote_peer s

pub data CallEvent : Type 0 where
  hears : ℕ → VoiceMessage → CallEvent
  resumes : ℕ → Bool → CallEvent
  ice_changes : ℕ → IceState → CallEvent
  track_comes fires opens closes : ℕ → CallEvent
  joins_room : Str → Str → Str → Str → CallEvent
  leaves renders track_ends : CallEvent

-- The effects after a render.
unfoldable pub render : Call → Call
render s = record s { peers_ref = s.peers; shown_in_voice = s.is_in_voice }

-- The device of the local stream goes away.
unfoldable pub end_track : Option Bool → Call → Call
end_track none s = s
end_track (some _) s = record s { stream = some false }

unfoldable pub call_step : CallEvent → Call → Call
call_step (hears k message) s =
    if is_open (lookup k s.sockets) then handle_signaling_message message s else s
call_step (resumes j ok) s = resume_job (lookup j s.jobs) j ok s
call_step (ice_changes connection state) s = on_ice_state connection state s
call_step (track_comes connection) s = on_track (lookup connection s.links) s
call_step (fires n) s = on_timer n s
call_step (opens k) s = on_socket_open (lookup k s.sockets) k s
call_step (closes k) s = on_socket_close (lookup k s.sockets) k s
call_step (joins_room room house user peer) s = join_voice room house user peer s
call_step leaves s = leave_voice s
call_step renders s = render s
call_step track_ends s = end_track s.stream s

unfoldable pub call_run : List CallEvent → Call → Call
call_run [] s = s
call_run (e ∷ es) s = call_run es (call_step e s)

abbrev pub no_call : Call
no_call = record {
  peers = [];
  peers_ref = [];
  cleaned_peers = [];
  links = [];
  next_link = 0;
  recovery = [];
  restarted = [];
  armed = [];
  next_timer = 0;
  room = none;
  house = none;
  peer_id = none;
  user_id = none;
  is_in_voice = false;
  shown_in_voice = false;
  socket = none;
  sockets = [];
  next_socket = 0;
  sent = [];
  delivered = [];
  stream = none;
  meters = 0;
  is_rebuilding = false;
  jobs = [];
  next_job = 0;
}

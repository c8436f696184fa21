-- ===== src/Calls/Recovery.antt =====
-- The recovery of a voice connection: `tryIceRestart` and oniceconnectionstatechange with its timers,
-- of src/contexts/WebRTCContext.tsx.
use cordia.Base.{
  Bool, Dict, Option, Str, contains, false, if◌then◌else◌, lookup, nat_eq, none, put, some, str_eq,
  true, ℕ, ◌&&◌, ◌+◌,
}
use cordia.Calls.{
  IceState, fresh, checking, connected, completed, disconnected, failed, Link, PeerInfo,
  RecoveryTimers, after_disconnect, after_failure, restarts, asks_path, Call, await, clear_timer,
  clear_recovery_timers, without, handle_peer_disconnect, is_open, socket_state,
}

abbrev pub is_there {ℓ} : {A : Type ℓ} → Option A → Bool
is_there none = false
is_there (some _) = true

-- tryIceRestart, up to its wait
unfoldable pub try_ice_restart : Str → Call → Call
try_ice_restart peer s =
    if is_there (lookup peer s.peers_ref)
      && is_open (socket_state s.socket s.sockets)
      && is_there s.room
    then await (restarts peer) s
    else s

abbrev pub timers_of : Option RecoveryTimers → RecoveryTimers
timers_of none = record { disconnect_timer = none; failed_timer = none }
timers_of (some entry) = entry

-- While ICE checks again, there is no restart.
unfoldable pub stop_disconnect_timer : Option RecoveryTimers → Str → Call → Call
stop_disconnect_timer none peer s = s
stop_disconnect_timer (some entry) peer s = record s {
  armed = clear_timer entry.disconnect_timer s.armed;
  recovery = put peer (record entry { disconnect_timer = none }) s.recovery;
}

unfoldable pub arm_disconnect_timer : RecoveryTimers → Str → Call → Call
arm_disconnect_timer entry peer s = record s {
  armed = put s.next_timer (after_disconnect peer) (clear_timer entry.disconnect_timer s.armed);
  recovery = put peer (record entry { disconnect_timer = some s.next_timer }) s.recovery;
  next_timer = s.next_timer + 1;
}

unfoldable pub arm_failed_timer : RecoveryTimers → Str → Call → Call
arm_failed_timer entry peer s = record s {
  armed = put s.next_timer (after_failure peer) (clear_timer entry.failed_timer s.armed);
  recovery = put peer (record entry { failed_timer = some s.next_timer }) s.recovery;
  next_timer = s.next_timer + 1;
}

unfoldable pub recover : IceState → Str → Call → Call
recover fresh peer s = s
recover connected peer s =
    let t = clear_recovery_timers peer s in record t { restarted = without peer t.restarted }
recover completed peer s =
    let t = clear_recovery_timers peer s in record t { restarted = without peer t.restarted }
recover checking peer s = stop_disconnect_timer (lookup peer s.recovery) peer s
recover disconnected peer s = arm_disconnect_timer (timers_of (lookup peer s.recovery)) peer s
recover failed peer s =
    let t = arm_failed_timer (timers_of (lookup peer s.recovery)) peer s in
    if contains s.restarted peer then t else await (asks_path peer) t

-- The handler is gone when the connection is closed.
unfoldable pub ice_of : Option Link → ℕ → IceState → Call → Call
ice_of none connection state s = s
ice_of (some link) connection state s =
    recover state link.remote_peer
      (record s { links = put connection (record link { ice = state }) s.links })

unfoldable pub on_ice_state : ℕ → IceState → Call → Call
on_ice_state connection state s = ice_of (lookup connection s.links) connection state s

-- connected, completed or checking
abbrev pub settles : IceState → Bool
settles connected = true
settles completed = true
settles checking = true
settles _ = false

abbrev pub is_settling : Option Link → Bool
is_settling none = false
is_settling (some link) = settles link.ice

abbrev pub link_of : Option PeerInfo → Dict ℕ Link → Option Link
link_of none links = none
link_of (some info) links = lookup info.connection links

-- if (entry) entry.disconnectTimer = null, and the same of failedTimer
abbrev pub forget_disconnect :
    Option RecoveryTimers → Str → Dict Str RecoveryTimers → Dict Str RecoveryTimers
forget_disconnect none peer recovery = recovery
forget_disconnect (some entry) peer recovery =
    put peer (record entry { disconnect_timer = none }) recovery

abbrev pub forget_failure :
    Option RecoveryTimers → Str → Dict Str RecoveryTimers → Dict Str RecoveryTimers
forget_failure none peer recovery = recovery
forget_failure (some entry) peer recovery = put peer (record entry { failed_timer = none }) recovery

unfoldable pub on_disconnect_timer : Str → Call → Call
on_disconnect_timer peer s =
    let t = record s { recovery = forget_disconnect (lookup peer s.recovery) peer s.recovery } in
    if is_settling (link_of (lookup peer s.peers_ref) s.links) then t else try_ice_restart peer t

unfoldable pub on_failed_timer : Str → Call → Call
on_failed_timer peer s =
    let t = record s { recovery = forget_failure (lookup peer s.recovery) peer s.recovery } in
    if is_there (lookup peer s.peers_ref) then handle_peer_disconnect peer t else t

-- ===== src/Calls/Recovered.antt =====
-- Once ICE has connected, no timer gives the peer up, in every schedule.
use cordia.Base.{
  Bool, List, Option, Str, [], arith, if◌then◌else◌, lookup, lookup-put, nat_eq, none, put, refl,
  some, str_eq, ℕ, ◌&&◌, ◌∷◌, ◌≡◌, ◌≢◌,
}
use cordia.Calls.{
  connected, Link, PeerInfo, after_disconnect, after_failure, reconnect, SocketState, Call, await,
  clear_recovery_timers, is_open,
}
use cordia.Calls.Recovery.{is_there, recover, ice_of, on_ice_state}
use cordia.Calls.Signaling.{leave_voice_internal, leave_voice, join_voice}
use cordia.Calls.Schedule.{
  on_timer, on_socket_open, on_socket_close, play, on_track, CallEvent, hears, resumes, ice_changes,
  track_comes, fires, opens, closes, joins_room, leaves, renders, track_ends, render, end_track,
  call_step, call_run, no_call,
}
use cordia.Calls.Tied.{IsTied, Stands, Stands-IsTied, if-IsTied, drop_recovery-clears}
use cordia.Calls.Firing.{ice_of-IsTied, fire-IsTied}
use cordia.Calls.Handled.{
  handle_signaling_message-IsTied, leave_voice_internal-IsTied, resume_job-IsTied,
}

play-Stands : (found : Option PeerInfo) (p : Str) (s : Call) → Stands s (play found p s)
unfolding play
play-Stands none p s = (refl, refl)
play-Stands (some info) p s = (refl, refl)

on_track-Stands : (found : Option Link) (s : Call) → Stands s (on_track found s)
unfolding on_track
on_track-Stands none s = (refl, refl)
on_track-Stands (some link) s = play-Stands (lookup link.remote_peer s.peers) link.remote_peer s

socket_open-Stands :
    (found : Option SocketState) (k : ℕ) (s : Call) → Stands s (on_socket_open found k s)
unfolding on_socket_open
socket_open-Stands none k s = (refl, refl)
socket_open-Stands (some state) k s = (refl, refl)

end_track-Stands : (stream : Option Bool) (s : Call) → Stands s (end_track stream s)
unfolding end_track
end_track-Stands none s = (refl, refl)
end_track-Stands (some live) s = (refl, refl)

socket_close-IsTied :
    (found : Option SocketState) (k : ℕ) (s : Call) → IsTied s → IsTied (on_socket_close found k s)
unfolding on_socket_close
socket_close-IsTied none k s h = h
socket_close-IsTied (some state) k s h =
    if-IsTied (s.is_in_voice && is_there s.room) _ _
      (record {
        failing = λ n p at.
            ground (arith, at, h.failing n p, lookup-put s.next_timer n reconnect s.armed);
        restarting = λ n p at.
            ground (arith, at, h.restarting n p, lookup-put s.next_timer n reconnect s.armed);
      })
      (Stands-IsTied s _ (refl, refl) h)

call_step-IsTied : (e : CallEvent) (s : Call) → IsTied s → IsTied (call_step e s)
unfolding call_step on_ice_state on_timer leave_voice join_voice render await
call_step-IsTied (hears k m) s h =
    if-IsTied (is_open (lookup k s.sockets)) _ _ (handle_signaling_message-IsTied m s h) h
call_step-IsTied (resumes j ok) s h = resume_job-IsTied (lookup j s.jobs) j ok s h
call_step-IsTied (ice_changes c state) s h = ice_of-IsTied (lookup c s.links) c state s h
call_step-IsTied (track_comes c) s h = Stands-IsTied s _ (on_track-Stands (lookup c s.links) s) h
call_step-IsTied (fires n) s h = fire-IsTied (lookup n s.armed) n s refl h
call_step-IsTied (opens k) s h = Stands-IsTied s _ (socket_open-Stands (lookup k s.sockets) k s) h
call_step-IsTied (closes k) s h = socket_close-IsTied (lookup k s.sockets) k s h
call_step-IsTied (joins_room room house user peer) s h =
    Stands-IsTied (if s.shown_in_voice then leave_voice_internal s else s) _ (refl, refl)
      (if-IsTied s.shown_in_voice (leave_voice_internal s) s (leave_voice_internal-IsTied s h) h)
call_step-IsTied leaves s h =
    if-IsTied s.shown_in_voice (leave_voice_internal s) s (leave_voice_internal-IsTied s h) h
call_step-IsTied renders s h = Stands-IsTied s _ (refl, refl) h
call_step-IsTied track_ends s h = Stands-IsTied s _ (end_track-Stands s.stream s) h

call_run-IsTied : (es : List CallEvent) (s : Call) → IsTied s → IsTied (call_run es s)
unfolding call_run
call_run-IsTied [] s h = h
call_run-IsTied (e ∷ es) s h = call_run-IsTied es (call_step e s) (call_step-IsTied e s h)

no_call-IsTied : IsTied no_call
unfolding lookup
no_call-IsTied = record {
  failing = λ n p at. absurd (ground (arith, at));
  restarting = λ n p at. absurd (ground (arith, at));
}

-- Whatever happened to the call before: when ICE of an open connection has connected, no timer is left
-- that would give its peer up, or restart ICE for it.
pub connected-clears :
    (es : List CallEvent) (c : ℕ) (link : Link)
    → let s = call_run es no_call in
      lookup c s.links ≡ some link
      → (n : ℕ)
      → (lookup n (call_step (ice_changes c connected) s).armed
          ≢ some (after_failure link.remote_peer))
        × (lookup n (call_step (ice_changes c connected) s).armed
            ≢ some (after_disconnect link.remote_peer))
unfolding call_step on_ice_state ice_of recover clear_recovery_timers
connected-clears es c link open_link n =
    let s = call_run es no_call in
    let seen = record s { links = put c (record link { ice = connected }) s.links } in
    let tied = call_run-IsTied es no_call no_call-IsTied in
    rw open_link (
      drop_recovery-clears (lookup link.remote_peer s.recovery) link.remote_peer seen n refl
        (Stands-IsTied s seen (refl, refl) tied))

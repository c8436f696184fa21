-- ===== src/Calls/Recovering.antt =====
-- The recovery of connections opens none, and forgets none.
use cordia.Base.{
  Option, Str, arith, contains, eqb_iff, lookup, lookup-put, nat_eq, none, some, str_eq, ℕ, ◌&&◌,
  ◌≡◌,
}
use cordia.Calls.{
  IceState, fresh, checking, connected, completed, disconnected, failed, Link, RecoveryTimers,
  Timer, after_disconnect, after_failure, reconnect, restarts, asks_path, Call, await,
  clear_recovery_timers, handle_peer_disconnect, is_open, socket_state, without,
}
use cordia.Calls.Recovery.{
  is_there, try_ice_restart, timers_of, stop_disconnect_timer, arm_disconnect_timer,
  arm_failed_timer, recover, ice_of, on_disconnect_timer, on_failed_timer, is_settling, link_of,
  forget_disconnect, forget_failure,
}
use cordia.Calls.Signaling.{connect_to_signaling}
use cordia.Calls.Schedule.{fire}
use cordia.Calls.Tracked.{
  IsTracked, if-IsTracked, Keeps, Keeps-IsTracked, await-IsTracked, drop_recovery-Keeps,
  handle_peer_disconnect-IsTracked,
}

pub try_ice_restart-IsTracked :
    (o : Option ℕ) (p : Str) (s : Call) → IsTracked o s → IsTracked o (try_ice_restart p s)
unfolding try_ice_restart
try_ice_restart-IsTracked o p s h =
    if-IsTracked o
      (is_there (lookup p s.peers_ref)
        && is_open (socket_state s.socket s.sockets)
        && is_there s.room)
      (await (restarts p) s) s (await-IsTracked o (restarts p) s h) h

cleared-Keeps :
    (p : Str) (s : Call)
    → let t = clear_recovery_timers p s in Keeps s (record t { restarted = without p t.restarted })
unfolding clear_recovery_timers
cleared-Keeps p s = drop_recovery-Keeps (lookup p s.recovery) p s

stop_disconnect_timer-Keeps :
    (e : Option RecoveryTimers) (p : Str) (s : Call) → Keeps s (stop_disconnect_timer e p s)
unfolding stop_disconnect_timer
stop_disconnect_timer-Keeps none p s = ground arith
stop_disconnect_timer-Keeps (some e) p s = ground arith

pub recover-IsTracked :
    (state : IceState) (p : Str) (s : Call) → IsTracked none s → IsTracked none (recover state p s)
unfolding recover arm_disconnect_timer arm_failed_timer
recover-IsTracked fresh p s h = h
recover-IsTracked connected p s h = Keeps-IsTracked none s _ (cleared-Keeps p s) h
recover-IsTracked completed p s h = Keeps-IsTracked none s _ (cleared-Keeps p s) h
recover-IsTracked checking p s h =
    Keeps-IsTracked none s (stop_disconnect_timer (lookup p s.recovery) p s)
      (stop_disconnect_timer-Keeps (lookup p s.recovery) p s) h
recover-IsTracked disconnected p s h =
    Keeps-IsTracked none s (arm_disconnect_timer (timers_of (lookup p s.recovery)) p s)
      (ground arith) h
recover-IsTracked failed p s h =
    let t = arm_failed_timer (timers_of (lookup p s.recovery)) p s in
    let kept = Keeps-IsTracked none s t (ground arith) h in
    if-IsTracked none (contains s.restarted p) t (await (asks_path p) t) kept
      (await-IsTracked none (asks_path p) t kept)

pub ice_of-IsTracked :
    (found : Option Link) (c : ℕ) (state : IceState) (s : Call)
    → lookup c s.links ≡ found
    → IsTracked none s
    → IsTracked none (ice_of found c state s)
unfolding ice_of
ice_of-IsTracked none c state s e h = h
ice_of-IsTracked (some link) c state s e h = recover-IsTracked state link.remote_peer _ (record {
  tracked = λ d ne op.
      h.tracked d ne
        (ground (arith, op, lookup-put c d (record link { ice = state }) s.links, eqb_iff c d, e));
  older = h.older;
})

pub fire-IsTracked : (t : Option Timer) (s : Call) → IsTracked none s → IsTracked none (fire t s)
unfolding fire on_disconnect_timer on_failed_timer connect_to_signaling
fire-IsTracked none s h = h
fire-IsTracked (some (after_disconnect p)) s h =
    let t = record s { recovery = forget_disconnect (lookup p s.recovery) p s.recovery } in
    let kept = Keeps-IsTracked none s t (ground arith) h in
    if-IsTracked none (is_settling (link_of (lookup p s.peers_ref) s.links)) t (try_ice_restart p t)
      kept (try_ice_restart-IsTracked none p t kept)
fire-IsTracked (some (after_failure p)) s h =
    let t = record s { recovery = forget_failure (lookup p s.recovery) p s.recovery } in
    let kept = Keeps-IsTracked none s t (ground arith) h in
    if-IsTracked none (is_there (lookup p s.peers_ref)) (handle_peer_disconnect p t) t
      (handle_peer_disconnect-IsTracked none p t kept) kept
fire-IsTracked (some reconnect) s h = Keeps-IsTracked none s _ (ground arith) h

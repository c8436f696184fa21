-- ===== src/Calls/Firing.antt =====
-- A timer that runs out, and a peer that goes, leave the recovery timers tied.
use cordia.Base.{
  Option, Str, arith, eqb_iff, lookup, lookup-put, lookup-remove, nat_eq, none, refl, remove, some,
  str_beq_iff, str_eq, ℕ, ◌≡◌,
}
use cordia.Calls.{
  IceState, Link, PeerInfo, RecoveryTimers, Timer, after_disconnect, after_failure, reconnect, Call,
  await, disconnect, handle_peer_disconnect,
}
use cordia.Calls.Recovery.{
  is_there, try_ice_restart, ice_of, forget_disconnect, forget_failure, on_disconnect_timer,
  on_failed_timer, is_settling, link_of,
}
use cordia.Calls.Signaling.{connect_to_signaling}
use cordia.Calls.Schedule.{fire}
use cordia.Calls.Tied.{
  IsTied, Stands, Stands-IsTied, if-IsTied, recover-IsTied, cleanup_peer_connection-IsTied,
}

disconnect-IsTied :
    (found : Option PeerInfo) (p : Str) (s : Call) → IsTied s → IsTied (disconnect found p s)
unfolding disconnect
disconnect-IsTied none p s h = h
disconnect-IsTied (some info) p s h =
    Stands-IsTied _ _ (refl, refl) (cleanup_peer_connection-IsTied p info s h)

pub handle_peer_disconnect-IsTied :
    (p : Str) (s : Call) → IsTied s → IsTied (handle_peer_disconnect p s)
unfolding handle_peer_disconnect
handle_peer_disconnect-IsTied p s h = disconnect-IsTied (lookup p s.peers) p s h

pub try_ice_restart-Stands : (p : Str) (s : Call) → Stands s (try_ice_restart p s)
unfolding try_ice_restart await
try_ice_restart-Stands p s = ground arith

pub ice_of-IsTied :
    (found : Option Link) (c : ℕ) (state : IceState) (s : Call)
    → IsTied s
    → IsTied (ice_of found c state s)
unfolding ice_of
ice_of-IsTied none c state s h = h
ice_of-IsTied (some link) c state s h =
    recover-IsTied state link.remote_peer _ (Stands-IsTied s _ (refl, refl) h)

run_out-IsTied : (n : ℕ) (s : Call) → IsTied s → IsTied (record s { armed = remove n s.armed })
run_out-IsTied n s h = record {
  failing = λ k q there. ground (arith, h.failing k q, there, lookup-remove n k s.armed);
  restarting = λ k q there. ground (arith, h.restarting k q, there, lookup-remove n k s.armed);
}

forgot_disconnect :
    (found : Option RecoveryTimers) (p : Str) (n : ℕ) (s : Call)
    → lookup p s.recovery ≡ found
    → lookup n s.armed ≡ some (after_disconnect p)
    → IsTied s
    → IsTied
        (record s { armed = remove n s.armed; recovery = forget_disconnect found p s.recovery })
forgot_disconnect none p n s e at h = run_out-IsTied n s h
forgot_disconnect (some entry) p n s e at h =
    let entry' : RecoveryTimers = record entry { disconnect_timer = none } in
    record {
      failing = λ k q there. ground (
        arith,
        h.failing k q,
        there,
        e,
        lookup-remove n k s.armed,
        lookup-put p q entry' s.recovery,
        str_beq_iff p q,
      );
      restarting = λ k q there. ground (
        arith,
        h.restarting k q,
        h.restarting n p at,
        there,
        e,
        lookup-remove n k s.armed,
        eqb_iff n k,
        lookup-put p q entry' s.recovery,
        str_beq_iff p q,
      );
    }

forgot_failure :
    (found : Option RecoveryTimers) (p : Str) (n : ℕ) (s : Call)
    → lookup p s.recovery ≡ found
    → lookup n s.armed ≡ some (after_failure p)
    → IsTied s
    → IsTied (record s { armed = remove n s.armed; recovery = forget_failure found p s.recovery })
forgot_failure none p n s e at h = run_out-IsTied n s h
forgot_failure (some entry) p n s e at h =
    let entry' : RecoveryTimers = record entry { failed_timer = none } in
    record {
      failing = λ k q there. ground (
        arith,
        h.failing k q,
        h.failing n p at,
        there,
        e,
        lookup-remove n k s.armed,
        eqb_iff n k,
        lookup-put p q entry' s.recovery,
        str_beq_iff p q,
      );
      restarting = λ k q there. ground (
        arith,
        h.restarting k q,
        there,
        e,
        lookup-remove n k s.armed,
        lookup-put p q entry' s.recovery,
        str_beq_iff p q,
      );
    }

pub fire-IsTied :
    (found : Option Timer) (n : ℕ) (s : Call)
    → lookup n s.armed ≡ found
    → IsTied s
    → IsTied (fire found (record s { armed = remove n s.armed }))
unfolding fire on_disconnect_timer on_failed_timer connect_to_signaling
fire-IsTied none n s e h = run_out-IsTied n s h
fire-IsTied (some (after_disconnect p)) n s e h =
    let t = record s {
      armed = remove n s.armed;
      recovery = forget_disconnect (lookup p s.recovery) p s.recovery;
    } in
    let tied = forgot_disconnect (lookup p s.recovery) p n s refl e h in
    if-IsTied (is_settling (link_of (lookup p s.peers_ref) s.links)) t (try_ice_restart p t) tied
      (Stands-IsTied t (try_ice_restart p t) (try_ice_restart-Stands p t) tied)
fire-IsTied (some (after_failure p)) n s e h =
    let t = record s {
      armed = remove n s.armed;
      recovery = forget_failure (lookup p s.recovery) p s.recovery;
    } in
    let tied = forgot_failure (lookup p s.recovery) p n s refl e h in
    if-IsTied (is_there (lookup p s.peers_ref)) (handle_peer_disconnect p t) t
      (handle_peer_disconnect-IsTied p t tied) tied
fire-IsTied (some reconnect) n s e h =
    let late = record s { armed = remove n s.armed } in
    Stands-IsTied late _ (ground arith) (run_out-IsTied n s h)

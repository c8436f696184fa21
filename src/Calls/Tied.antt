-- ===== src/Calls/Tied.antt =====
-- The recovery timers that may fire are those that peerRecoveryRef has for their peers.
use cordia.Base.{
  Bool, Bool-cases, Dict, Option, Str, arith, contains, eqb_iff, false, if◌then◌else◌, inl, inr,
  lookup, lookup-put, lookup-remove, nat_eq, none, put, refl, some, str_beq_iff, str_eq, true, ℕ,
  ◌==◌, ◌≡◌, ◌≢◌, ◌⊎◌,
}
use cordia.Calls.{
  IceState, fresh, checking, connected, completed, disconnected, failed, PeerInfo, RecoveryTimers,
  Timer, after_disconnect, after_failure, Call, await, asks_path, clear_timer, drop_recovery,
  clear_recovery_timers, cleanup_peer_connection, without,
}
use cordia.Calls.Recovery.{
  timers_of, stop_disconnect_timer, arm_disconnect_timer, arm_failed_timer, recover,
}

abbrev failed_timer_of : Option RecoveryTimers → Option ℕ
failed_timer_of none = none
failed_timer_of (some entry) = entry.failed_timer

abbrev disconnect_timer_of : Option RecoveryTimers → Option ℕ
disconnect_timer_of none = none
disconnect_timer_of (some entry) = entry.disconnect_timer

pub record IsTied (s : Call) : Type 0 where
  pub failing :
      (n : ℕ) (p : Str)
      → lookup n s.armed ≡ some (after_failure p)
      → failed_timer_of (lookup p s.recovery) ≡ some n
  pub restarting :
      (n : ℕ) (p : Str)
      → lookup n s.armed ≡ some (after_disconnect p)
      → disconnect_timer_of (lookup p s.recovery) ≡ some n

abbrev pub Stands : Call → Call → Type 0
Stands s t = (t.armed ≡ s.armed) × (t.recovery ≡ s.recovery)

pub Stands-IsTied : (s t : Call) → Stands s t → IsTied s → IsTied t
Stands-IsTied s t (armed, recovery) h = record {
  failing = rw (armed, recovery) h.failing;
  restarting = rw (armed, recovery) h.restarting;
}

pub if-IsTied : (b : Bool) (s t : Call) → IsTied s → IsTied t → IsTied (if b then s else t)
if-IsTied true s t h k = h
if-IsTied false s t h k = k

disarmed :
    (o : Option ℕ) (n : ℕ) (t : Timer) (armed : Dict ℕ Timer)
    → lookup n (clear_timer o armed) ≡ some t
    → (lookup n armed ≡ some t) × (o ≢ some n)
disarmed none n t armed e = ground (arith, e)
disarmed (some k) n t armed e = ground (arith, e, lookup-remove k n armed, eqb_iff k n)

drop_recovery-IsTied :
    (found : Option RecoveryTimers) (p : Str) (s : Call)
    → lookup p s.recovery ≡ found
    → IsTied s
    → IsTied (drop_recovery found p s)
unfolding drop_recovery
drop_recovery-IsTied none p s e h = h
drop_recovery-IsTied (some entry) p s e h =
    let first = clear_timer entry.disconnect_timer s.armed in
    record {
      failing = λ n q at.
          let (a, f) = disarmed entry.failed_timer n (after_failure q) first at in
          let (b, d) = disarmed entry.disconnect_timer n (after_failure q) s.armed a in
          ground (arith, h.failing n q b, f, e, lookup-remove p q s.recovery, str_beq_iff p q);
      restarting = λ n q at.
          let (a, f) = disarmed entry.failed_timer n (after_disconnect q) first at in
          let (b, d) = disarmed entry.disconnect_timer n (after_disconnect q) s.armed a in
          ground (arith, h.restarting n q b, d, e, lookup-remove p q s.recovery, str_beq_iff p q);
    }

dropped :
    (found : Option RecoveryTimers) (p : Str) (s : Call)
    → lookup p s.recovery ≡ found
    → lookup p (drop_recovery found p s).recovery ≡ none
unfolding drop_recovery
dropped none p s e = e
dropped (some entry) p s e = ground (arith, lookup-remove p p s.recovery, str_beq_iff p p)

-- The timers of the peer are gone.
pub drop_recovery-clears :
    (found : Option RecoveryTimers) (p : Str) (s : Call) (n : ℕ)
    → lookup p s.recovery ≡ found
    → IsTied s
    → (lookup n (drop_recovery found p s).armed ≢ some (after_failure p))
      × (lookup n (drop_recovery found p s).armed ≢ some (after_disconnect p))
drop_recovery-clears found p s n e h =
    let t = drop_recovery-IsTied found p s e h in
    (
      λ at. absurd (ground (arith, t.failing n p at, dropped found p s e)),
      λ at. absurd (ground (arith, t.restarting n p at, dropped found p s e)),
    )

rearmed :
    (o : Option ℕ) (next n : ℕ) (new t : Timer) (armed : Dict ℕ Timer)
    → lookup n (put next new (clear_timer o armed)) ≡ some t
    → ((next ≡ n) × (new ≡ t)) ⊎ ((lookup n armed ≡ some t) × (o ≢ some n))
rearmed o next n new t armed at = elim (Bool-cases (next == n)) [
  | inl here ↦
      inl (ground (arith, at, here, lookup-put next n new (clear_timer o armed), eqb_iff next n))
  | inr there ↦ inr (
      disarmed o n t armed (ground (arith, at, there, lookup-put next n new (clear_timer o armed))))
]

arm_failed_timer-IsTied :
    (p : Str) (s : Call)
    → IsTied s
    → IsTied (arm_failed_timer (timers_of (lookup p s.recovery)) p s)
unfolding arm_failed_timer
arm_failed_timer-IsTied p s h =
    let entry = timers_of (lookup p s.recovery) in
    let entry' : RecoveryTimers = record entry { failed_timer = some s.next_timer } in
    record {
      failing = λ n q at.
          elim (rearmed entry.failed_timer s.next_timer n (after_failure p) (after_failure q)
            s.armed at) [
              | inl (here, same) ↦
                  ground (arith, here, same, lookup-put p q entry' s.recovery, str_beq_iff p q)
              | inr (old, kept) ↦ ground (
                arith,
                h.failing n q old,
                kept,
                lookup-put p q entry' s.recovery,
                str_beq_iff p q,
              )
            ];
      restarting = λ n q at.
          elim (rearmed entry.failed_timer s.next_timer n (after_failure p) (after_disconnect q)
            s.armed at) [
              | inl (here, same) ↦ absurd (ground (arith, same))
              | inr (old, kept) ↦
                  ground
                    (arith, h.restarting n q old, lookup-put p q entry' s.recovery, str_beq_iff p q)
            ];
    }

arm_disconnect_timer-IsTied :
    (p : Str) (s : Call)
    → IsTied s
    → IsTied (arm_disconnect_timer (timers_of (lookup p s.recovery)) p s)
unfolding arm_disconnect_timer
arm_disconnect_timer-IsTied p s h =
    let entry = timers_of (lookup p s.recovery) in
    let entry' : RecoveryTimers = record entry { disconnect_timer = some s.next_timer } in
    record {
      failing = λ n q at.
          elim (rearmed entry.disconnect_timer s.next_timer n (after_disconnect p) (after_failure q)
            s.armed at) [
              | inl (here, same) ↦ absurd (ground (arith, same))
              | inr (old, kept) ↦
                  ground
                    (arith, h.failing n q old, lookup-put p q entry' s.recovery, str_beq_iff p q)
            ];
      restarting = λ n q at.
          elim (rearmed entry.disconnect_timer s.next_timer n (after_disconnect p)
            (after_disconnect q) s.armed at) [
              | inl (here, same) ↦
                  ground (arith, here, same, lookup-put p q entry' s.recovery, str_beq_iff p q)
              | inr (old, kept) ↦ ground (
                arith,
                h.restarting n q old,
                kept,
                lookup-put p q entry' s.recovery,
                str_beq_iff p q,
              )
            ];
    }

stop_disconnect_timer-IsTied :
    (found : Option RecoveryTimers) (p : Str) (s : Call)
    → lookup p s.recovery ≡ found
    → IsTied s
    → IsTied (stop_disconnect_timer found p s)
unfolding stop_disconnect_timer
stop_disconnect_timer-IsTied none p s e h = h
stop_disconnect_timer-IsTied (some entry) p s e h =
    let entry' : RecoveryTimers = record entry { disconnect_timer = none } in
    record {
      failing = λ n q at.
          let (a, d) = disarmed entry.disconnect_timer n (after_failure q) s.armed at in
          ground (arith, h.failing n q a, e, lookup-put p q entry' s.recovery, str_beq_iff p q);
      restarting = λ n q at.
          let (a, d) = disarmed entry.disconnect_timer n (after_disconnect q) s.armed at in
          ground
            (arith, h.restarting n q a, d, e, lookup-put p q entry' s.recovery, str_beq_iff p q);
    }

recovered-IsTied :
    (p : Str) (s : Call)
    → IsTied s
    → let t = clear_recovery_timers p s in IsTied (record t { restarted = without p t.restarted })
unfolding clear_recovery_timers
recovered-IsTied p s h =
    let t = drop_recovery (lookup p s.recovery) p s in
    Stands-IsTied t (record t { restarted = without p t.restarted }) (ground arith)
      (drop_recovery-IsTied (lookup p s.recovery) p s refl h)

pub recover-IsTied : (state : IceState) (p : Str) (s : Call) → IsTied s → IsTied (recover state p s)
unfolding recover await
recover-IsTied fresh p s h = h
recover-IsTied connected p s h = recovered-IsTied p s h
recover-IsTied completed p s h = recovered-IsTied p s h
recover-IsTied checking p s h = stop_disconnect_timer-IsTied (lookup p s.recovery) p s refl h
recover-IsTied disconnected p s h = arm_disconnect_timer-IsTied p s h
recover-IsTied failed p s h =
    let t = arm_failed_timer (timers_of (lookup p s.recovery)) p s in
    let tied = arm_failed_timer-IsTied p s h in
    if-IsTied (contains s.restarted p) t (await (asks_path p) t) tied
      (Stands-IsTied t (await (asks_path p) t) (ground arith) tied)

pub cleanup_peer_connection-IsTied :
    (p : Str) (info : PeerInfo) (s : Call) → IsTied s → IsTied (cleanup_peer_connection p info s)
unfolding cleanup_peer_connection clear_recovery_timers
cleanup_peer_connection-IsTied p info s h =
    let t = drop_recovery (lookup p s.recovery) p s in
    if-IsTied (contains s.cleaned_peers p) s _ h
      (Stands-IsTied t _ (ground arith) (drop_recovery-IsTied (lookup p s.recovery) p s refl h))

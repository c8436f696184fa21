-- ===== src/Calls/Tracked.antt =====
-- Each connection that is open is one of a peer, or of a handler that has not told of it yet.
use cordia.Base.{
  Bool, Bool-cases, Option, Str, [], arith, contains, contains-append_one, eqb_iff, false,
  if◌then◌else◌, inl, inr, lookup, lookup-put, lookup-remove, nat_eq, none, refl, remove, some,
  str_beq_iff, str_eq, true, ℕ, ◌++◌, ◌<◌, ◌==◌, ◌∷◌, ◌≡◌, ◌≢◌, ◌⊎◌,
}
use cordia.Calls.{
  PeerInfo, RecoveryTimers, Job, rebuilds, waits, Call, await, drop_recovery, clear_recovery_timers,
  cleanup_peer_connection, disconnect, handle_peer_disconnect,
}
use cordia.Calls.Recovery.{is_there}
use cordia.Calls.Signaling.{take_job}

-- The connection that a handler made and waits to tell of.
abbrev pub held_link : Option Job → Option ℕ
held_link (some (rebuilds has peer user connection purpose)) = some connection
held_link (some (waits peer user connection purpose)) = some connection
held_link _ = none

abbrev pub connection_of : Option PeerInfo → Option ℕ
connection_of none = none
connection_of (some info) = some info.connection

abbrev pub IsOfPeer : ℕ → Call → Type 0
IsOfPeer c s =
    (peer : Str) × (connection_of (lookup peer s.peers) ≡ some c)
    × (contains s.cleaned_peers peer ≡ false)

abbrev pub IsHeld : ℕ → Call → Type 0
IsHeld c s = (j : ℕ) × (held_link (lookup j s.jobs) ≡ some c)

-- All but the connection `o` are tracked.
pub record IsTracked (o : Option ℕ) (s : Call) : Type 0 where
  pub tracked :
      (c : ℕ) → o ≢ some c → is_there (lookup c s.links) ≡ true → IsOfPeer c s ⊎ IsHeld c s
  pub older : (j : ℕ) → is_there (lookup j s.jobs) ≡ true → j < s.next_job

abbrev pub Keeps : Call → Call → Type 0
Keeps s t =
    (t.links ≡ s.links)
    × (t.peers ≡ s.peers)
    × (t.cleaned_peers ≡ s.cleaned_peers)
    × (t.jobs ≡ s.jobs)
    × (t.next_job ≡ s.next_job)

pub Keeps-IsTracked : (o : Option ℕ) (s t : Call) → Keeps s t → IsTracked o s → IsTracked o t
Keeps-IsTracked o s t (links, peers, cleaned, jobs, next) h = record {
  tracked = rw (links, peers, cleaned, jobs) h.tracked;
  older = rw (jobs, next) h.older;
}

pub await-IsTracked :
    (o : Option ℕ) (job : Job) (s : Call) → IsTracked o s → IsTracked o (await job s)
unfolding await
await-IsTracked o job s h = record {
  tracked = λ c ne op. elim (h.tracked c ne op) [
    | inl of ↦ inl of
    | inr (j, held) ↦ inr (
      j,
      ground (arith, lookup-put s.next_job j job s.jobs, eqb_iff s.next_job j, h.older j, held),
    )
  ];
  older = λ j there.
      ground (arith, lookup-put s.next_job j job s.jobs, eqb_iff s.next_job j, h.older j, there);
}

pub if-IsTracked :
    (o : Option ℕ) (b : Bool) (s t : Call)
    → IsTracked o s
    → IsTracked o t
    → IsTracked o (if b then s else t)
if-IsTracked o true s t h k = h
if-IsTracked o false s t h k = k

-- The handler that holds a new connection goes on.
pub await_holding-IsTracked :
    (c : ℕ) (job : Job) (s : Call)
    → held_link (some job) ≡ some c
    → IsTracked (some c) s
    → IsTracked none (await job s)
unfolding await
await_holding-IsTracked c job s holds h = record {
  tracked = λ d ne op. elim (Bool-cases (c == d)) [
    | inl same ↦ inr (
      s.next_job,
      ground (
        arith,
        lookup-put s.next_job s.next_job job s.jobs,
        eqb_iff s.next_job s.next_job,
        eqb_iff c d,
        holds,
        same,
      ),
    )
    | inr other ↦ elim (h.tracked d (λ e. absurd (ground (arith, e, other, eqb_iff c d))) op) [
      | inl of ↦ inl of
      | inr (j, held) ↦ inr (
        j,
        ground (arith, lookup-put s.next_job j job s.jobs, eqb_iff s.next_job j, h.older j, held),
      )
    ]
  ];
  older = λ j there.
      ground (arith, lookup-put s.next_job j job s.jobs, eqb_iff s.next_job j, h.older j, there);
}

-- A handler goes on: the connection that it held is no longer held.
pub take_job-IsTracked :
    (j : ℕ) (s : Call) → IsTracked none s → IsTracked (held_link (lookup j s.jobs)) (take_job j s)
take_job-IsTracked j s h = record {
  tracked = λ c ne op. elim (h.tracked c (λ e. absurd (ground (arith, e))) op) [
    | inl of ↦ inl of
    | inr (k, held) ↦ inr (k, ground (arith, lookup-remove j k s.jobs, eqb_iff j k, held, ne))
  ];
  older = λ k there. ground (arith, lookup-remove j k s.jobs, h.older k, there);
}

pub drop_recovery-Keeps :
    (o : Option RecoveryTimers) (p : Str) (s : Call) → Keeps s (drop_recovery o p s)
unfolding drop_recovery
drop_recovery-Keeps none p s = ground arith
drop_recovery-Keeps (some e) p s = ground arith

pub cleanup_fields :
    (p : Str) (info : PeerInfo) (s : Call)
    → let t = cleanup_peer_connection p info s in
      (t.links ≡ (if contains s.cleaned_peers p then s.links else remove info.connection s.links))
      × (t.peers ≡ s.peers)
      × (t.cleaned_peers
          ≡ (if contains s.cleaned_peers p then s.cleaned_peers else s.cleaned_peers ++ p ∷ []))
      × (t.jobs ≡ s.jobs)
      × (t.next_job ≡ s.next_job)
unfolding cleanup_peer_connection clear_recovery_timers
cleanup_fields p info s = ground (arith, drop_recovery-Keeps (lookup p s.recovery) p s)

-- A peer goes, and its connection is closed.
disconnect-IsTracked :
    (o : Option ℕ) (found : Option PeerInfo) (p : Str) (s : Call)
    → lookup p s.peers ≡ found
    → IsTracked o s
    → IsTracked o (disconnect found p s)
unfolding disconnect
disconnect-IsTracked o none p s e h = h
disconnect-IsTracked o (some info) p s e h =
    let (links, peers, cleaned, jobs, next) = cleanup_fields p info s in
    record {
      tracked = λ c ne op.
          elim (h.tracked c ne
            (ground (arith, links, lookup-remove info.connection c s.links, op))) [
              | inl (q, of, free) ↦ inl (
                q,
                ground (
                  arith,
                  peers,
                  links,
                  lookup-remove p q s.peers,
                  lookup-remove info.connection c s.links,
                  eqb_iff info.connection c,
                  str_beq_iff p q,
                  of,
                  free,
                  op,
                  e,
                ),
                ground (
                  arith,
                  cleaned,
                  links,
                  contains-append_one q p s.cleaned_peers,
                  lookup-remove info.connection c s.links,
                  eqb_iff info.connection c,
                  str_beq_iff p q,
                  of,
                  free,
                  op,
                  e,
                ),
              )
              | inr (j, held) ↦ inr (j, ground (arith, jobs, held))
            ];
      older = λ j there. ground (arith, jobs, next, h.older j, there);
    }

pub handle_peer_disconnect-IsTracked :
    (o : Option ℕ) (p : Str) (s : Call) → IsTracked o s → IsTracked o (handle_peer_disconnect p s)
unfolding handle_peer_disconnect
handle_peer_disconnect-IsTracked o p s h = disconnect-IsTracked o (lookup p s.peers) p s refl h

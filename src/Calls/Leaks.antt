-- ===== src/Calls/Leaks.antt =====
-- Connections that stay open, or come to be, after the user has left.
use cordia.Base.{
  Bool, Dict, List, Option, Str, [], ap, arith, eqb_iff, false, if◌then◌else◌, lookup, lookup-put,
  nat_eq, none, put, refl, some, str_beq_iff, str_eq, subst, true, ℕ, ◌+◌, ◌∙◌, ◌∷◌, ◌≡◌,
}
use cordia.Calls.{
  fresh, Link, PeerInfo, RecoveryTimers, offering, rebuilds, offers, Call, await, drop_recovery,
  clear_recovery_timers, cleanup_peer_connection, find_peer_by_user_id, signal, offer_to,
  unregister,
}
use cordia.Calls.Signaling.{
  attach, created, rebuild, with_stream, create_connection, replace, register_next, cleanup_all,
  leave_voice_internal, leave_voice, take_job, rebuilt, resume_job,
}
use cordia.Calls.Schedule.{resumes, leaves, call_step, call_run}

abbrev pub the_link : Str → Link
the_link peer = record { remote_peer = peer; ice = fresh; has_track = true }

abbrev pub the_peer : Str → Str → ℕ → PeerInfo
the_peer peer user c = record { peer_id = peer; user_id = user; connection = c; has_stream = false }

-- What the cleanup leaves alone.
abbrev pub Spares : Call → Call → Type 0
Spares s t =
    (t.stream ≡ s.stream)
    × (t.next_link ≡ s.next_link)
    × (t.is_in_voice ≡ s.is_in_voice)
    × (t.is_rebuilding ≡ s.is_rebuilding)
    × (t.meters ≡ s.meters)
    × (t.jobs ≡ s.jobs)
    × (t.next_job ≡ s.next_job)

drop_recovery-Spares :
    (o : Option RecoveryTimers) (p : Str) (s : Call) → Spares s (drop_recovery o p s)
unfolding drop_recovery
drop_recovery-Spares none p s = ground arith
drop_recovery-Spares (some e) p s = ground arith

pub cleanup-Spares :
    (p : Str) (info : PeerInfo) (s : Call) → Spares s (cleanup_peer_connection p info s)
unfolding cleanup_peer_connection clear_recovery_timers
cleanup-Spares p info s = ground (arith, drop_recovery-Spares (lookup p s.recovery) p s)

pub cleanup_all-Spares : (peers : Dict Str PeerInfo) (s : Call) → Spares s (cleanup_all peers s)
unfolding cleanup_all
cleanup_all-Spares [] s = ground arith
cleanup_all-Spares ((p, info) ∷ peers) s =
    ground
      (arith, cleanup-Spares p info s, cleanup_all-Spares peers (cleanup_peer_connection p info s))

told_off-Spares : (s : Call) → Spares s (cleanup_all s.peers_ref (signal unregister s))
unfolding signal
told_off-Spares s = ground (arith, cleanup_all-Spares s.peers_ref (signal unregister s))

left_fields :
    (s : Call)
    → s.shown_in_voice ≡ true
    → let t = call_step leaves s in
      (t.stream ≡ none)
      × (t.peers ≡ [])
      × (t.peers_ref ≡ [])
      × (t.is_in_voice ≡ false)
      × (t.next_link ≡ s.next_link)
      × (t.is_rebuilding ≡ s.is_rebuilding)
      × (t.meters ≡ s.meters)
      × (t.jobs ≡ s.jobs)
      × (t.next_job ≡ s.next_job)
unfolding call_step leave_voice leave_voice_internal
left_fields s shown = ground (arith, told_off-Spares s, shown)

-- Without a live stream, the handler starts to rebuild the audio.
created_later :
    (stream : Option Bool) (q v : Str) (c : ℕ) (rest : List (Str × Str)) (s : Call)
    → stream ≡ none
    → s.is_rebuilding ≡ false
    → let t = with_stream stream q v c (offering rest) s in
      (lookup s.next_job t.jobs ≡ some (rebuilds false q v c (offering rest)))
      × (t.links ≡ s.links)
      × (t.is_in_voice ≡ s.is_in_voice)
      × (t.meters ≡ s.meters)
unfolding with_stream rebuild await
created_later none q v c rest s e idle = ground (
  arith,
  idle,
  lookup-put s.next_job s.next_job (rebuilds false q v c (offering rest)) s.jobs,
  eqb_iff s.next_job s.next_job,
)
created_later (some live) q v c rest s e idle = absurd (ground (arith, e))

nobody_found :
    (v : Str) (peers : Dict Str PeerInfo) → peers ≡ [] → find_peer_by_user_id v peers ≡ none
unfolding find_peer_by_user_id
nobody_found v [] e = refl
nobody_found v (b ∷ peers) e = absurd (ground (arith, e))

registered_fields :
    (q v : Str) (rest : List (Str × Str)) (s : Call)
    → s.peers_ref ≡ []
    → s.stream ≡ none
    → s.is_rebuilding ≡ false
    → let t = register_next ((q, v) ∷ rest) s in
      (lookup s.next_job t.jobs ≡ some (rebuilds false q v s.next_link (offering rest)))
      × (lookup s.next_link t.links
          ≡ some (record { remote_peer = q; ice = fresh; has_track = false }))
      × (t.is_in_voice ≡ s.is_in_voice)
      × (t.meters ≡ s.meters)
unfolding register_next replace create_connection
registered_fields q v rest s no_peers no_stream idle =
    let link : Link = record { remote_peer = q; ice = fresh; has_track = false } in
    let made = record s { links = put s.next_link link s.links; next_link = s.next_link + 1 } in
    rw (nobody_found v s.peers_ref no_peers) (
      ground (
        arith,
        created_later s.stream q v s.next_link rest made no_stream idle,
        lookup-put s.next_link s.next_link link s.links,
        eqb_iff s.next_link s.next_link,
      ))

-- The loop over the peers goes on in a call that was left.
resumed_fields :
    (j : ℕ) (ok : Bool) (p q v : Str) (rest : List (Str × Str)) (s : Call)
    → lookup j s.jobs ≡ some (offers p ((q, v) ∷ rest))
    → s.peers_ref ≡ []
    → s.stream ≡ none
    → s.is_rebuilding ≡ false
    → let t = call_step (resumes j ok) s in
      (lookup s.next_job t.jobs ≡ some (rebuilds false q v s.next_link (offering rest)))
      × (lookup s.next_link t.links
          ≡ some (record { remote_peer = q; ice = fresh; has_track = false }))
      × (t.is_in_voice ≡ s.is_in_voice)
      × (t.meters ≡ s.meters)
unfolding call_step resume_job signal
resumed_fields j ok p q v rest s job no_peers no_stream idle =
    let sent = if ok then signal (offer_to p) (take_job j s) else take_job j s in
    rw job (ground (arith, registered_fields q v rest sent, no_peers, no_stream, idle))

rebuilt_fields :
    (j c : ℕ) (q v : Str) (rest : List (Str × Str)) (s : Call) (link : Link)
    → lookup j s.jobs ≡ some (rebuilds false q v c (offering rest))
    → lookup c s.links ≡ some link
    → let t = call_step (resumes j true) s in
      (t.stream ≡ some true)
      × (t.meters ≡ s.meters + 1)
      × (lookup q t.peers ≡ some (the_peer q v c))
      × (lookup c t.links ≡ some (record link { has_track = true }))
      × (t.is_in_voice ≡ s.is_in_voice)
unfolding call_step resume_job created rebuilt await attach
rebuilt_fields j c q v rest s link job open_link = rw job (
    ground (
      arith,
      open_link,
      lookup-put q q (the_peer q v c) s.peers,
      str_beq_iff q q,
      lookup-put c c (record link { has_track = true }) s.links,
      eqb_iff c c,
    ))

-- When the user leaves while the loop over the peers of the room waits for an offer to be made, the
-- loop goes on: it opens the microphone again, and a connection to the next peer that has the local
-- track, outside of any call.
pub leave_voice-reopens :
    (j : ℕ) (ok : Bool) (p q v : Str) (rest : List (Str × Str)) (s : Call)
    → lookup j s.jobs ≡ some (offers p ((q, v) ∷ rest))
    → s.shown_in_voice ≡ true
    → s.is_rebuilding ≡ false
    → let t = call_run (leaves ∷ resumes j ok ∷ resumes s.next_job true ∷ []) s in
      (t.is_in_voice ≡ false)
      × (t.stream ≡ some true)
      × (t.meters ≡ s.meters + 1)
      × (lookup q t.peers ≡ some (the_peer q v s.next_link))
      × (lookup s.next_link t.links ≡ some (the_link q))
unfolding call_run
leave_voice-reopens j ok p q v rest s job shown idle =
    let left = call_step leaves s in
    let (stream, peers, peers_ref, outside, link, rebuilding, meters, jobs, next) =
      left_fields s shown in
    let (waiting, made, still, same) =
      resumed_fields j ok p q v rest left (ap (lookup j) jobs ∙ job) peers_ref stream
        (rebuilding ∙ idle) in
    let again = call_step (resumes j ok) left in
    let there : lookup s.next_job again.jobs
        ≡ some (rebuilds false q v s.next_link (offering rest)) =
      subst (λ c. lookup s.next_job again.jobs ≡ some (rebuilds false q v c (offering rest))) link
        (subst (λ n. lookup n again.jobs ≡ some (rebuilds false q v left.next_link (offering rest)))
          next waiting) in
    let (live, count, told, track, where_at) =
      rebuilt_fields s.next_job s.next_link q v rest again
        (record { remote_peer = q; ice = fresh; has_track = false }) there
        (subst
          (λ c.
            lookup c again.links
            ≡ some (record { remote_peer = q; ice = fresh; has_track = false }))
          link made) in
    (where_at ∙ still ∙ outside, live, count ∙ omega (arith, same, meters), told, track)

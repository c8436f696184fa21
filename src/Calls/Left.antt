-- ===== src/Calls/Left.antt =====
-- Leaving a call closes the connections of its peers.
use cordia.Base.{
  Bool-cases, Dict, Str, [], ap, arith, contains, contains-append_one, eqb_iff, false, inl, inr,
  lookup, lookup-remove, nat_eq, none, refl, some, str_beq_iff, str_eq, sym, true, ℕ, ◌==◌, ◌∙◌,
  ◌∷◌, ◌≡◌,
}
use cordia.Calls.{PeerInfo, Call, cleanup_peer_connection, unregister, signal}
use cordia.Calls.Recovery.{is_there}
use cordia.Calls.Signaling.{cleanup_all, leave_voice_internal}
use cordia.Calls.Tracked.{connection_of, held_link, IsTracked, cleanup_fields}
use cordia.Calls.Newcomer.{signal-Keeps}

cleanup_all_frame :
    (peers : Dict Str PeerInfo) (s : Call)
    → let t = cleanup_all peers s in (t.jobs ≡ s.jobs) × (t.next_job ≡ s.next_job)
unfolding cleanup_all
cleanup_all_frame [] s = ground arith
cleanup_all_frame ((p, info) ∷ peers) s =
    let (links, ps, cleaned, jobs, next) = cleanup_fields p info s in
    let (jobs', next') = cleanup_all_frame peers (cleanup_peer_connection p info s) in
    (jobs' ∙ jobs, next' ∙ next)

-- Nothing is opened.
cleanup_all_shrinks :
    (peers : Dict Str PeerInfo) (s : Call) (c : ℕ)
    → is_there (lookup c (cleanup_all peers s).links) ≡ true
    → is_there (lookup c s.links) ≡ true
unfolding cleanup_all
cleanup_all_shrinks [] s c op = op
cleanup_all_shrinks ((p, info) ∷ peers) s c op =
    let (links, ps, cleaned, jobs, next) = cleanup_fields p info s in
    let before = cleanup_all_shrinks peers (cleanup_peer_connection p info s) c op in
    ground (arith, links, before, lookup-remove info.connection c s.links)

cleanup_all_closes :
    (peers : Dict Str PeerInfo) (s : Call) (p : Str) (c : ℕ)
    → connection_of (lookup p peers) ≡ some c
    → contains s.cleaned_peers p ≡ false
    → is_there (lookup c (cleanup_all peers s).links) ≡ false
unfolding cleanup_all lookup
cleanup_all_closes [] s p c e free = absurd (ground (arith, e))
cleanup_all_closes ((q, info) ∷ peers) s p c e free = elim (Bool-cases (q == p)) [
  | inl same ↦
      let (links, ps, cleaned, jobs, next) = cleanup_fields q info s in
      elim (Bool-cases (is_there (lookup c (cleanup_all ((q, info) ∷ peers) s).links))) [
        | inl op ↦ absurd (
            ground (
              arith,
              cleanup_all_shrinks peers (cleanup_peer_connection q info s) c op,
              links,
              lookup-remove info.connection c s.links,
              eqb_iff info.connection c,
              str_beq_iff q p,
              e,
              free,
            ))
        | inr shut ↦ shut
      ]
  | inr other ↦
      let (links, ps, cleaned, jobs, next) = cleanup_fields q info s in
      cleanup_all_closes peers (cleanup_peer_connection q info s) p c (ground (arith, e, other))
        (ground (arith, cleaned, contains-append_one p q s.cleaned_peers, free, other))
]

-- When the rendered peers are those of the call, leaving closes all connections but those that a
-- handler has not told of.
pub leave_voice_internal-IsTracked :
    (s : Call) → s.peers_ref ≡ s.peers → IsTracked none s → IsTracked none (leave_voice_internal s)
unfolding leave_voice_internal
leave_voice_internal-IsTracked s rendered h =
    let told = signal unregister s in
    let (links, ps, cleaned, jobs, next) = signal-Keeps unregister s in
    let (jobs', next') = cleanup_all_frame s.peers_ref told in
    record {
      tracked = λ c ne op.
          elim (h.tracked c ne (
            ap (λ l. is_there (lookup c l)) (sym links)
            ∙ cleanup_all_shrinks s.peers_ref told c op)) [
              | inl (p, of, free) ↦ absurd (
                  ground (
                    arith,
                    op,
                    cleanup_all_closes s.peers_ref told p c
                        (ap (λ l. connection_of (lookup p l)) rendered ∙ of)
                        (ap (λ l. contains l p) cleaned ∙ free),
                  ))
              | inr (j, held) ↦ inr (j, ap (λ l. held_link (lookup j l)) (jobs' ∙ jobs) ∙ held)
            ];
      older = λ j there. omega (
        arith,
        next',
        next,
        h.older j (ap (λ l. is_there (lookup j l)) (sym (jobs' ∙ jobs)) ∙ there),
      );
    }

pub leave_voice_internal_fields :
    (s : Call) → ((leave_voice_internal s).peers ≡ []) × ((leave_voice_internal s).jobs ≡ s.jobs)
unfolding leave_voice_internal
leave_voice_internal_fields s =
    let (links, ps, cleaned, jobs, next) = signal-Keeps unregister s in
    (refl, (cleanup_all_frame s.peers_ref (signal unregister s)).0 ∙ jobs)

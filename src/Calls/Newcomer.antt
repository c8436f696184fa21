-- ===== src/Calls/Newcomer.antt =====
-- A connection to a peer that was not there before in the call.
use cordia.Base.{
  Bool, Bool-cases, Dict, List, Option, Str, [], arith, contains, contains-append_one, eqb_iff,
  false, inl, inr, lookup, lookup-put, lookup-remove, nat_eq, none, put, refl, some, str_beq_iff,
  str_eq, true, ℕ, ◌==◌, ◌∷◌, ◌≡◌,
}
use cordia.Calls.{
  fresh, Link, PeerInfo, Purpose, offering, rebuilds, waits, Call, disconnect,
  handle_peer_disconnect, find_peer_by_user_id, Signal, signal,
}
use cordia.Calls.Recovery.{is_there}
use cordia.Calls.Signaling.{
  attach, purpose_job, created, rebuild, with_stream, create_connection, replace, register_next,
}
use cordia.Calls.Tracked.{
  IsTracked, if-IsTracked, Keeps, Keeps-IsTracked, await-IsTracked, await_holding-IsTracked,
  handle_peer_disconnect-IsTracked, cleanup_fields,
}

-- The peer is not in the call, and no connection to it was cleaned up before.
abbrev pub IsNewcomer : Str → Call → Type 0
IsNewcomer peer s =
    (is_there (lookup peer s.peers) ≡ false) × (contains s.cleaned_peers peer ≡ false)

attach-there :
    (found : Option Link) (has : Bool) (c d : ℕ) (links : Dict ℕ Link)
    → lookup c links ≡ found
    → is_there (lookup d (attach found has c links)) ≡ is_there (lookup d links)
unfolding attach
attach-there none has c d links e = refl
attach-there (some link) has c d links e =
    ground (arith, lookup-put c d (record link { has_track = has }) links, eqb_iff c d, e)

told-IsTracked :
    (info : PeerInfo) (has : Bool) (s : Call)
    → IsNewcomer info.peer_id s
    → IsTracked (some info.connection) s
    → IsTracked none (record s {
      links = attach (lookup info.connection s.links) has info.connection s.links;
      peers = put info.peer_id info s.peers;
    })
told-IsTracked info has s (absent, free) h = record {
  tracked = λ d ne op. elim (Bool-cases (info.connection == d)) [
    | inl same ↦ inl (
      info.peer_id,
      ground (
        arith,
        lookup-put info.peer_id info.peer_id info s.peers,
        str_beq_iff info.peer_id info.peer_id,
        eqb_iff info.connection d,
        same,
      ),
      free,
    )
    | inr other ↦
        elim (h.tracked d (λ e. absurd (ground (arith, e, other, eqb_iff info.connection d)))
          (ground (
            arith,
            op,
            attach-there (lookup info.connection s.links) has info.connection d s.links refl,
          ))) [
            | inl (q, of, unclean) ↦ inl (
              q,
              ground (
                arith,
                lookup-put info.peer_id q info s.peers,
                str_beq_iff info.peer_id q,
                of,
                absent,
              ),
              unclean,
            )
            | inr held ↦ inr held
          ]
  ];
  older = h.older;
}

pub created-IsTracked :
    (has : Bool) (peer user : Str) (c : ℕ) (purpose : Purpose) (s : Call)
    → IsNewcomer peer s
    → IsTracked (some c) s
    → IsTracked none (created has peer user c purpose s)
unfolding created
created-IsTracked has peer user c purpose s new h =
    await-IsTracked none (purpose_job purpose peer) _ (
      told-IsTracked (record { peer_id = peer; user_id = user; connection = c; has_stream = false })
        has s new h)

pub rebuild-IsTracked :
    (has : Bool) (peer user : Str) (c : ℕ) (purpose : Purpose) (s : Call)
    → IsTracked (some c) s
    → IsTracked none (rebuild has peer user c purpose s)
unfolding rebuild
rebuild-IsTracked has peer user c purpose s h =
    let started = record s { is_rebuilding = true } in
    if-IsTracked none s.is_rebuilding _ _
      (await_holding-IsTracked c (waits peer user c purpose) s refl h)
      (await_holding-IsTracked c (rebuilds has peer user c purpose) started refl
        (Keeps-IsTracked (some c) s started (ground arith) h))

pub with_stream-IsTracked :
    (stream : Option Bool) (peer user : Str) (c : ℕ) (purpose : Purpose) (s : Call)
    → IsNewcomer peer s
    → IsTracked (some c) s
    → IsTracked none (with_stream stream peer user c purpose s)
unfolding with_stream
with_stream-IsTracked none peer user c purpose s new h =
    rebuild-IsTracked false peer user c purpose s h
with_stream-IsTracked (some false) peer user c purpose s new h =
    rebuild-IsTracked true peer user c purpose s h
with_stream-IsTracked (some true) peer user c purpose s new h =
    created-IsTracked true peer user c purpose s new h

disconnect-IsNewcomer :
    (found : Option PeerInfo) (q peer : Str) (s : Call)
    → lookup q s.peers ≡ found
    → IsNewcomer peer s
    → IsNewcomer peer (disconnect found q s)
unfolding disconnect
disconnect-IsNewcomer none q peer s e new = new
disconnect-IsNewcomer (some info) q peer s e (absent, free) =
    let (links, peers, cleaned, jobs, next) = cleanup_fields q info s in
    (
      ground (arith, peers, lookup-remove q peer s.peers, absent),
      ground (
        arith,
        cleaned,
        contains-append_one peer q s.cleaned_peers,
        str_beq_iff q peer,
        absent,
        free,
        e,
      ),
    )

replace-IsNewcomer :
    (found : Option PeerInfo) (peer : Str) (s : Call)
    → IsNewcomer peer s
    → IsNewcomer peer (replace found s)
unfolding replace handle_peer_disconnect
replace-IsNewcomer none peer s new = new
replace-IsNewcomer (some info) peer s new =
    disconnect-IsNewcomer (lookup info.peer_id s.peers) info.peer_id peer s refl new

replace-IsTracked :
    (o : Option ℕ) (found : Option PeerInfo) (s : Call)
    → IsTracked o s
    → IsTracked o (replace found s)
unfolding replace
replace-IsTracked o none s h = h
replace-IsTracked o (some info) s h = handle_peer_disconnect-IsTracked o info.peer_id s h

pub create_connection-IsTracked :
    (peer user : Str) (purpose : Purpose) (s : Call)
    → IsNewcomer peer s
    → IsTracked none s
    → IsTracked none (create_connection peer user purpose s)
unfolding create_connection
create_connection-IsTracked peer user purpose s new h =
    with_stream-IsTracked s.stream peer user s.next_link purpose _ new (record {
      tracked = λ d ne op.
          h.tracked d (λ e. absurd (ground (arith, e)))
            (ground (
              arith,
              op,
              ne,
              lookup-put s.next_link d
                  (record { remote_peer = peer; ice = fresh; has_track = false }) s.links,
              eqb_iff s.next_link d,
            ));
      older = h.older;
    })

-- The connection that the user had goes, and the new one is made.
pub replaced-IsTracked :
    (found : Option PeerInfo) (peer user : Str) (purpose : Purpose) (s : Call)
    → IsNewcomer peer s
    → IsTracked none s
    → IsTracked none (create_connection peer user purpose (replace found s))
replaced-IsTracked found peer user purpose s new h =
    create_connection-IsTracked peer user purpose (replace found s)
      (replace-IsNewcomer found peer s new) (replace-IsTracked none found s h)

abbrev pub ComesNew : List (Str × Str) → Call → Type 0
ComesNew [] s = Unit
ComesNew ((peer, user) ∷ rest) s = IsNewcomer peer s

pub register_next-IsTracked :
    (others : List (Str × Str)) (s : Call)
    → ComesNew others s
    → IsTracked none s
    → IsTracked none (register_next others s)
unfolding register_next
register_next-IsTracked [] s new h = h
register_next-IsTracked ((peer, user) ∷ rest) s new h =
    replaced-IsTracked (find_peer_by_user_id user s.peers_ref) peer user (offering rest) s new h

pub signal-Keeps : (message : Signal) (s : Call) → Keeps s (signal message s)
unfolding signal
signal-Keeps message s = ground arith

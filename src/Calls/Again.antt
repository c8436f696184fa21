-- ===== src/Calls/Again.antt =====
-- A peer that the beacon lists again, after a reconnect of the signaling.
use cordia.Base.{
  All, Bool, Bool-cases, Dict, Option, Str, [], ap, arith, contains, contains-append_one, eqb_iff,
  false, inl, inr, lookup, lookup-put, lookup-remove, nat_eq, none, put, refl, remove, some,
  str_beq_iff, str_eq, subst, sym, true, ℕ, ◌+◌, ◌<◌, ◌==◌, ◌∙◌, ◌∷◌, ◌≡◌, ◌≢◌, ◌⊎◌,
}
use cordia.Calls.{
  fresh, Link, PeerInfo, offering, Call, await, cleanup_peer_connection, disconnect,
  handle_peer_disconnect, find_peer_by_user_id, is_open, signal, unregister,
}
use cordia.Calls.Signaling.{
  registered, handle_signaling_message, attach, created, with_stream, create_connection, replace,
  register_next, cleanup_all, leave_voice_internal, leave_voice,
}
use cordia.Calls.Schedule.{hears, leaves, renders, render, call_step, call_run}
use cordia.Calls.Tracked.{cleanup_fields}
use cordia.Calls.Newcomer.{signal-Keeps}
use cordia.Calls.Leaks.{the_link, the_peer, cleanup-Spares}

-- No other peer of the list has the connection.
abbrev OnlyOf : ℕ → Str → Dict Str PeerInfo → Type 0
OnlyOf c p [] = Unit
OnlyOf c p ((q, info) ∷ peers) = ((q ≡ p) ⊎ (info.connection ≢ c)) × OnlyOf c p peers

OnlyOf-remove :
    (c : ℕ) (p : Str) (peers : Dict Str PeerInfo)
    → All (λ b. b.1.connection < c) peers
    → OnlyOf c p (remove p peers)
unfolding remove
OnlyOf-remove c p [] h = tt
OnlyOf-remove c p ((q, info) ∷ peers) h = elim (Bool-cases (q == p)) [
  | inl same ↦ rw same (OnlyOf-remove c p peers h.1)
  | inr other ↦ rw other (inr (λ e. absurd (omega (arith, h.0, e))), OnlyOf-remove c p peers h.1)
]

OnlyOf-put :
    (c : ℕ) (p : Str) (info : PeerInfo) (peers : Dict Str PeerInfo)
    → OnlyOf c p peers
    → OnlyOf c p (put p info peers)
unfolding put
OnlyOf-put c p info [] h = (inl refl, tt)
OnlyOf-put c p info ((q, other) ∷ peers) h = elim (Bool-cases (q == p)) [
  | inl same ↦ rw same (inl (ground (arith, same, str_beq_iff q p)), h.1)
  | inr differs ↦ rw differs (h.0, OnlyOf-put c p info peers h.1)
]

-- A peer that was cleaned up before is passed over.
passed_over :
    (c : ℕ) (p : Str) (peers : Dict Str PeerInfo) (s : Call)
    → OnlyOf c p peers
    → contains s.cleaned_peers p ≡ true
    → lookup c (cleanup_all peers s).links ≡ lookup c s.links
unfolding cleanup_all
passed_over c p [] s h cleaned = refl
passed_over c p ((q, info) ∷ peers) s h was_cleaned =
    let (links, ps, cleaned, jobs, next) = cleanup_fields q info s in
    let rest =
      passed_over c p peers (cleanup_peer_connection q info s) h.1
        (ground (arith, cleaned, contains-append_one p q s.cleaned_peers, was_cleaned)) in
    elim h.0 [
      | inl same ↦ ground (arith, rest, links, same, was_cleaned)
      | inr other ↦ ground (
        arith,
        rest,
        links,
        other,
        lookup-remove info.connection c s.links,
        eqb_iff info.connection c,
      )
    ]

replaced_fields :
    (found : Option PeerInfo) (p : Str) (s : Call)
    → lookup p s.peers ≡ found
    → found ≢ none
    → let t = disconnect found p s in
      (t.peers ≡ remove p s.peers)
      × (contains t.cleaned_peers p ≡ true)
      × (t.stream ≡ s.stream)
      × (t.next_link ≡ s.next_link)
      × (t.is_in_voice ≡ s.is_in_voice)
unfolding disconnect
replaced_fields none p s e some_peer = absurd (some_peer refl)
replaced_fields (some info) p s e some_peer =
    let (links, ps, cleaned, jobs, next) = cleanup_fields p info s in
    ground (
      arith,
      ps,
      cleaned,
      cleanup-Spares p info s,
      contains-append_one p p s.cleaned_peers,
      str_beq_iff p p,
    )

created_fields :
    (stream : Option Bool) (p u : Str) (c : ℕ) (s : Call)
    → stream ≡ some true
    → lookup c s.links ≡ some (record { remote_peer = p; ice = fresh; has_track = false })
    → let t = with_stream stream p u c (offering []) s in
      (t.peers ≡ put p (the_peer p u c) s.peers)
      × (lookup c t.links ≡ some (the_link p))
      × (t.cleaned_peers ≡ s.cleaned_peers)
      × (t.is_in_voice ≡ s.is_in_voice)
unfolding with_stream created await attach
created_fields none p u c s e made = absurd (ground (arith, e))
created_fields (some false) p u c s e made = absurd (ground (arith, e))
created_fields (some true) p u c s e made =
    ground (arith, made, lookup-put c c (the_link p) s.links, eqb_iff c c)

-- The loop replaces the connection of the peer itself.
heard_fields :
    (k : ℕ) (p u : Str) (old : PeerInfo) (s : Call)
    → is_open (lookup k s.sockets) ≡ true
    → find_peer_by_user_id u s.peers_ref ≡ some old
    → old.peer_id ≡ p
    → lookup p s.peers ≢ none
    → s.stream ≡ some true
    → let t = call_step (hears k (registered ((p, u) ∷ []))) s in
      (t.peers ≡ put p (the_peer p u s.next_link) (remove p s.peers))
      × (lookup s.next_link t.links ≡ some (the_link p))
      × (contains t.cleaned_peers p ≡ true)
      × (t.is_in_voice ≡ s.is_in_voice)
unfolding call_step handle_signaling_message register_next replace handle_peer_disconnect
    create_connection
heard_fields k p u old s up found same there live =
    let r = disconnect (lookup old.peer_id s.peers) old.peer_id s in
    let link : Link = record { remote_peer = p; ice = fresh; has_track = false } in
    let made = record r { links = put r.next_link link r.links; next_link = r.next_link + 1 } in
    let (peers, cleaned, stream, next, inside) =
      replaced_fields (lookup old.peer_id s.peers) old.peer_id s refl (rw same there) in
    let (told, track, kept, still) = created_fields r.stream p u r.next_link made (stream ∙ live) (
      ground (
        arith,
        lookup-put r.next_link r.next_link link r.links,
        eqb_iff r.next_link r.next_link,
      )) in
    rw (up, found) (ground (arith, peers, cleaned, next, inside, told, track, kept, still, same))

left_open :
    (p : Str) (c : ℕ) (s : Call)
    → OnlyOf c p s.peers
    → contains s.cleaned_peers p ≡ true
    → s.is_in_voice ≡ true
    → lookup c s.links ≡ some (the_link p)
    → let t = call_run (renders ∷ leaves ∷ []) s in
      (lookup c t.links ≡ some (the_link p)) × (t.peers ≡ []) × (t.is_in_voice ≡ false)
unfolding call_run call_step render leave_voice leave_voice_internal
left_open p c s only cleaned inside track =
    let told = signal unregister (render s) in
    let (links, ps, was, jobs, next) = signal-Keeps unregister (render s) in
    ground (
      arith,
      inside,
      track,
      links,
      passed_over c p s.peers told only (ap (λ l. contains l p) was ∙ cleaned),
    )

-- When the signaling has reconnected and the beacon lists a peer that the call has, the peer is cleaned
-- up and connected anew under its id; as the user leaves then, the new connection stays open, with
-- the local track, and no peer tells of it.
pub leave_voice-leaks :
    (k : ℕ) (p u : Str) (old : PeerInfo) (s : Call)
    → is_open (lookup k s.sockets) ≡ true
    → find_peer_by_user_id u s.peers_ref ≡ some old
    → old.peer_id ≡ p
    → lookup p s.peers ≢ none
    → s.stream ≡ some true
    → s.is_in_voice ≡ true
    → All (λ b. b.1.connection < s.next_link) s.peers
    → let t = call_run (hears k (registered ((p, u) ∷ [])) ∷ renders ∷ leaves ∷ []) s in
      (lookup s.next_link t.links ≡ some (the_link p)) × (t.peers ≡ []) × (t.is_in_voice ≡ false)
unfolding call_run
leave_voice-leaks k p u old s up found same there live inside below =
    let t = call_step (hears k (registered ((p, u) ∷ []))) s in
    let (peers, track, cleaned, still) = heard_fields k p u old s up found same there live in
    let only =
      OnlyOf-put s.next_link p (the_peer p u s.next_link) (remove p s.peers)
        (OnlyOf-remove s.next_link p s.peers below) in
    left_open p s.next_link t (subst (OnlyOf s.next_link p) (sym peers) only) cleaned
      (still ∙ inside) track

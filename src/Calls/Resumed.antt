-- ===== src/Calls/Resumed.antt =====
-- A message of the beacon, and a handler that goes on, keep each connection tracked.
use cordia.Base.{
  Bool, List, Option, Str, [], arith, if◌then◌else◌, inl, inr, lookup, lookup-put, nat_eq, none,
  refl, some, str_beq_iff, str_eq, subst, true, ℕ, ◌&&◌, ◌||◌, ◌∷◌, ◌≡◌,
}
use cordia.Calls.{
  Link, PeerInfo, Signal, answering, Job, rebuilds, waits, offers, answers, restarts, asks_path,
  joins, Call, find_peer_by_user_id, signal, offer_to, answer_to,
}
use cordia.Calls.Recovery.{is_there, try_ice_restart}
use cordia.Calls.Signaling.{
  VoiceMessage, registered, peer_joined, peer_left, offer, answer, candidate,
  handle_signaling_message, on_offer, deliver, connect_to_signaling, joined, take_job, rebuilt,
  resume_job,
}
use cordia.Calls.Schedule.{play, on_track}
use cordia.Calls.Tracked.{
  held_link, IsTracked, if-IsTracked, Keeps, Keeps-IsTracked, await-IsTracked, take_job-IsTracked,
  handle_peer_disconnect-IsTracked,
}
use cordia.Calls.Newcomer.{
  IsNewcomer, ComesNew, created-IsTracked, with_stream-IsTracked, replaced-IsTracked,
  register_next-IsTracked, signal-Keeps,
}
use cordia.Calls.Recovering.{try_ice_restart-IsTracked}

play-IsTracked :
    (found : Option PeerInfo) (p : Str) (s : Call)
    → lookup p s.peers ≡ found
    → IsTracked none s
    → IsTracked none (play found p s)
unfolding play
play-IsTracked none p s e h = h
play-IsTracked (some info) p s e h = record {
  tracked = λ c ne op. elim (h.tracked c ne op) [
    | inl (q, of, free) ↦ inl (
      q,
      ground (
        arith,
        lookup-put p q (record info { has_stream = true }) s.peers,
        str_beq_iff p q,
        of,
        e,
      ),
      free,
    )
    | inr held ↦ inr held
  ];
  older = h.older;
}

pub on_track-IsTracked :
    (found : Option Link) (s : Call) → IsTracked none s → IsTracked none (on_track found s)
unfolding on_track
on_track-IsTracked none s h = h
on_track-IsTracked (some link) s h =
    play-IsTracked (lookup link.remote_peer s.peers) link.remote_peer s refl h

deliver-Keeps :
    (found : Option PeerInfo) (payload : Str) (s : Call) → Keeps s (deliver found payload s)
unfolding deliver
deliver-Keeps none payload s = ground arith
deliver-Keeps (some info) payload s = ground arith

-- Whether an offer of the peer makes a connection.
abbrev pub OffersNew : Option PeerInfo → Str → Call → Type 0
OffersNew none from s = IsNewcomer from s
OffersNew (some info) from s = Unit

abbrev pub HearsNew : VoiceMessage → Call → Type 0
HearsNew (registered others) s = ComesNew others s
HearsNew (offer from user) s = OffersNew (lookup from s.peers_ref) from s
HearsNew _ s = Unit

on_offer-IsTracked :
    (found : Option PeerInfo) (from user : Str) (s : Call)
    → OffersNew found from s
    → IsTracked none s
    → IsTracked none (on_offer found from user s)
unfolding on_offer
on_offer-IsTracked none from user s new h =
    replaced-IsTracked (find_peer_by_user_id user s.peers_ref) from user answering s new h
on_offer-IsTracked (some info) from user s new h = await-IsTracked none (answers from) s h

pub handle_signaling_message-IsTracked :
    (m : VoiceMessage) (s : Call)
    → HearsNew m s
    → IsTracked none s
    → IsTracked none (handle_signaling_message m s)
unfolding handle_signaling_message
handle_signaling_message-IsTracked (registered others) s new h =
    register_next-IsTracked others s new h
handle_signaling_message-IsTracked (peer_joined p) s new h = h
handle_signaling_message-IsTracked (peer_left p) s new h =
    handle_peer_disconnect-IsTracked none p s h
handle_signaling_message-IsTracked (offer from user) s new h =
    on_offer-IsTracked (lookup from s.peers_ref) from user s new h
handle_signaling_message-IsTracked (answer from sdp) s new h =
    Keeps-IsTracked none s _ (deliver-Keeps (lookup from s.peers_ref) sdp s) h
handle_signaling_message-IsTracked (candidate from ice) s new h =
    Keeps-IsTracked none s _ (deliver-Keeps (lookup from s.peers_ref) ice s) h

-- A handler that goes on makes a connection, or tells of one, only for a newcomer.
abbrev pub ResumesNew : Option Job → Call → Type 0
ResumesNew (some (rebuilds has peer user connection purpose)) s = IsNewcomer peer s
ResumesNew (some (waits peer user connection purpose)) s = IsNewcomer peer s
ResumesNew (some (offers peer rest)) s = ComesNew rest s
ResumesNew _ s = Unit

sent-IsTracked :
    (ok : Bool) (m : Signal) (s : Call)
    → IsTracked none s
    → IsTracked none (if ok then signal m s else s)
sent-IsTracked ok m s h =
    if-IsTracked none ok (signal m s) s (Keeps-IsTracked none s (signal m s) (signal-Keeps m s) h) h

rebuilt-Keeps : (ok : Bool) (s : Call) → Keeps s (rebuilt ok s)
unfolding rebuilt
rebuilt-Keeps ok s = ground arith

rebuilt-IsNewcomer : (ok : Bool) (p : Str) (s : Call) → IsNewcomer p s → IsNewcomer p (rebuilt ok s)
unfolding rebuilt
rebuilt-IsNewcomer ok p s new = ground (arith, new)

joined-Keeps : (room house user peer : Str) (s : Call) → Keeps s (joined room house user peer s)
unfolding joined connect_to_signaling
joined-Keeps room house user peer s = ground arith

ComesNew-sent :
    (rest : List (Str × Str)) (ok : Bool) (m : Signal) (j : ℕ) (s : Call)
    → ComesNew rest s
    → ComesNew rest (if ok then signal m (take_job j s) else take_job j s)
unfolding signal
ComesNew-sent [] ok m j s new = tt
ComesNew-sent ((p, user) ∷ rest) ok m j s new = ground (arith, new)

-- The handler goes on from where its job is taken.
go_on-IsTracked :
    (job : Job) (j : ℕ) (ok : Bool) (s : Call)
    → ResumesNew (some job) s
    → IsTracked none s
    → IsTracked (held_link (some job)) (take_job j s)
    → IsTracked none (resume_job (some job) j ok s)
unfolding resume_job
go_on-IsTracked (rebuilds has p u c purpose) j ok s new h rest =
    created-IsTracked (ok || has) p u c purpose (rebuilt ok (take_job j s))
      (rebuilt-IsNewcomer ok p (take_job j s) new)
      (Keeps-IsTracked (some c) (take_job j s) (rebuilt ok (take_job j s))
        (rebuilt-Keeps ok (take_job j s)) rest)
go_on-IsTracked (waits p u c purpose) j ok s new h rest =
    if-IsTracked none s.is_rebuilding s _ h
      (with_stream-IsTracked s.stream p u c purpose (take_job j s) new rest)
go_on-IsTracked (offers p others) j ok s new h rest =
    register_next-IsTracked others _ (ComesNew-sent others ok (offer_to p) j s new)
      (sent-IsTracked ok (offer_to p) (take_job j s) rest)
go_on-IsTracked (answers p) j ok s new h rest = sent-IsTracked ok (answer_to p) (take_job j s) rest
go_on-IsTracked (restarts p) j ok s new h rest = sent-IsTracked ok (offer_to p) (take_job j s) rest
go_on-IsTracked (asks_path p) j ok s new h rest =
    let again = record (take_job j s) { restarted = p ∷ s.restarted } in
    if-IsTracked none (ok && is_there (lookup p s.peers_ref)) (try_ice_restart p again)
      (take_job j s)
      (try_ice_restart-IsTracked none p again
        (Keeps-IsTracked none (take_job j s) again (ground arith) rest))
      rest
go_on-IsTracked (joins room house user p) j ok s new h rest =
    if-IsTracked none ok (joined room house user p (take_job j s)) (take_job j s)
      (Keeps-IsTracked none (take_job j s) (joined room house user p (take_job j s))
        (joined-Keeps room house user p (take_job j s)) rest)
      rest

pub resume_job-IsTracked :
    (found : Option Job) (j : ℕ) (ok : Bool) (s : Call)
    → lookup j s.jobs ≡ found
    → ResumesNew found s
    → IsTracked none s
    → IsTracked none (resume_job found j ok s)
resume_job-IsTracked none j ok s e new h = unfold resume_job in h
resume_job-IsTracked (some job) j ok s e new h =
    go_on-IsTracked job j ok s new h
      (subst (λ o. IsTracked (held_link o) (take_job j s)) e (take_job-IsTracked j s h))

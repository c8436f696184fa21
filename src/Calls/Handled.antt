-- ===== src/Calls/Handled.antt =====
-- The handlers leave the recovery timers tied to their peers.
use cordia.Calls.Firing.{handle_peer_disconnect-IsTied, try_ice_restart-Stands}
use cordia.Base.{
  Bool, Dict, List, Option, Str, [], arith, false, if◌then◌else◌, lookup, nat_eq, none, refl, some,
  str_eq, true, ℕ, ◌&&◌, ◌||◌, ◌∷◌,
}
use cordia.Calls.{
  PeerInfo, Signal, unregister, offer_to, answer_to, Purpose, offering, answering, Job, rebuilds,
  waits, offers, answers, restarts, asks_path, joins, Call, await, handle_peer_disconnect,
  find_peer_by_user_id, signal,
}
use cordia.Calls.Recovery.{is_there}
use cordia.Calls.Signaling.{
  created, rebuild, with_stream, create_connection, replace, register_next, on_offer, deliver,
  VoiceMessage, registered, peer_joined, peer_left, offer, answer, candidate,
  handle_signaling_message, connect_to_signaling, cleanup_all, leave_voice_internal, joined,
  take_job, rebuilt, resume_job,
}
use cordia.Calls.Tied.{IsTied, Stands, Stands-IsTied, if-IsTied, cleanup_peer_connection-IsTied}

created-Stands :
    (has : Bool) (p u : Str) (c : ℕ) (purpose : Purpose) (s : Call)
    → Stands s (created has p u c purpose s)
unfolding created await
created-Stands has p u c purpose s = (refl, refl)

with_stream-Stands :
    (stream : Option Bool) (p u : Str) (c : ℕ) (purpose : Purpose) (s : Call)
    → Stands s (with_stream stream p u c purpose s)
unfolding with_stream rebuild await
with_stream-Stands none p u c purpose s = ground arith
with_stream-Stands (some false) p u c purpose s = ground arith
with_stream-Stands (some true) p u c purpose s = created-Stands true p u c purpose s

-- The connection that the user had goes, and the new one is made.
replaced-IsTied :
    (found : Option PeerInfo) (p u : Str) (purpose : Purpose) (s : Call)
    → IsTied s
    → IsTied (create_connection p u purpose (replace found s))
unfolding create_connection replace
replaced-IsTied none p u purpose s h =
    Stands-IsTied s _ (with_stream-Stands s.stream p u s.next_link purpose _) h
replaced-IsTied (some info) p u purpose s h =
    let t = handle_peer_disconnect info.peer_id s in
    Stands-IsTied t _ (with_stream-Stands t.stream p u t.next_link purpose _)
      (handle_peer_disconnect-IsTied info.peer_id s h)

register_next-IsTied :
    (others : List (Str × Str)) (s : Call) → IsTied s → IsTied (register_next others s)
unfolding register_next
register_next-IsTied [] s h = h
register_next-IsTied ((p, u) ∷ rest) s h =
    replaced-IsTied (find_peer_by_user_id u s.peers_ref) p u (offering rest) s h

on_offer-IsTied :
    (found : Option PeerInfo) (from user : Str) (s : Call)
    → IsTied s
    → IsTied (on_offer found from user s)
unfolding on_offer await
on_offer-IsTied none from user s h =
    replaced-IsTied (find_peer_by_user_id user s.peers_ref) from user answering s h
on_offer-IsTied (some info) from user s h = Stands-IsTied s _ (refl, refl) h

deliver-Stands :
    (found : Option PeerInfo) (payload : Str) (s : Call) → Stands s (deliver found payload s)
unfolding deliver
deliver-Stands none payload s = (refl, refl)
deliver-Stands (some info) payload s = (refl, refl)

pub handle_signaling_message-IsTied :
    (m : VoiceMessage) (s : Call) → IsTied s → IsTied (handle_signaling_message m s)
unfolding handle_signaling_message
handle_signaling_message-IsTied (registered others) s h = register_next-IsTied others s h
handle_signaling_message-IsTied (peer_joined p) s h = h
handle_signaling_message-IsTied (peer_left p) s h = handle_peer_disconnect-IsTied p s h
handle_signaling_message-IsTied (offer from user) s h =
    on_offer-IsTied (lookup from s.peers_ref) from user s h
handle_signaling_message-IsTied (answer from sdp) s h =
    Stands-IsTied s _ (deliver-Stands (lookup from s.peers_ref) sdp s) h
handle_signaling_message-IsTied (candidate from ice) s h =
    Stands-IsTied s _ (deliver-Stands (lookup from s.peers_ref) ice s) h

cleanup_all-IsTied :
    (peers : Dict Str PeerInfo) (s : Call) → IsTied s → IsTied (cleanup_all peers s)
unfolding cleanup_all
cleanup_all-IsTied [] s h = h
cleanup_all-IsTied ((p, info) ∷ peers) s h =
    cleanup_all-IsTied peers _ (cleanup_peer_connection-IsTied p info s h)

signal-Stands : (m : Signal) (s : Call) → Stands s (signal m s)
unfolding signal
signal-Stands m s = ground arith

pub leave_voice_internal-IsTied : (s : Call) → IsTied s → IsTied (leave_voice_internal s)
unfolding leave_voice_internal
leave_voice_internal-IsTied s h =
    let told = signal unregister s in
    Stands-IsTied (cleanup_all s.peers_ref told) _ (refl, refl)
      (cleanup_all-IsTied s.peers_ref told (Stands-IsTied s told (signal-Stands unregister s) h))

sent-Stands : (ok : Bool) (m : Signal) (s : Call) → Stands s (if ok then signal m s else s)
unfolding signal
sent-Stands ok m s = ground arith

rebuilt-Stands :
    (ok has : Bool) (p u : Str) (c : ℕ) (purpose : Purpose) (j : ℕ) (s : Call)
    → Stands s (created (ok || has) p u c purpose (rebuilt ok (take_job j s)))
unfolding created await rebuilt
rebuilt-Stands ok has p u c purpose j s = ground arith

joined-Stands :
    (ok : Bool) (room house user p : Str) (j : ℕ) (s : Call)
    → Stands s (if ok then joined room house user p (take_job j s) else take_job j s)
unfolding joined connect_to_signaling
joined-Stands ok room house user p j s = ground arith

pub resume_job-IsTied :
    (found : Option Job) (j : ℕ) (ok : Bool) (s : Call)
    → IsTied s
    → IsTied (resume_job found j ok s)
unfolding resume_job
resume_job-IsTied none j ok s h = h
resume_job-IsTied (some (rebuilds has p u c purpose)) j ok s h =
    Stands-IsTied s _ (rebuilt-Stands ok has p u c purpose j s) h
resume_job-IsTied (some (waits p u c purpose)) j ok s h =
    if-IsTied s.is_rebuilding s _ h
      (Stands-IsTied s _ (with_stream-Stands s.stream p u c purpose (take_job j s)) h)
resume_job-IsTied (some (offers p rest)) j ok s h =
    register_next-IsTied rest _ (Stands-IsTied s _ (sent-Stands ok (offer_to p) (take_job j s)) h)
resume_job-IsTied (some (answers p)) j ok s h =
    Stands-IsTied s _ (sent-Stands ok (answer_to p) (take_job j s)) h
resume_job-IsTied (some (restarts p)) j ok s h =
    Stands-IsTied s _ (sent-Stands ok (offer_to p) (take_job j s)) h
resume_job-IsTied (some (asks_path p)) j ok s h =
    let again = record (take_job j s) { restarted = p ∷ s.restarted } in
    if-IsTied (ok && is_there (lookup p s.peers_ref)) _ _
      (Stands-IsTied s _ (try_ice_restart-Stands p again) h) (Stands-IsTied s _ (refl, refl) h)
resume_job-IsTied (some (joins room house user p)) j ok s h =
    Stands-IsTied s _ (joined-Stands ok room house user p j s) h

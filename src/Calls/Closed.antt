-- ===== src/Calls/Closed.antt =====
-- A schedule in which every connection is to a newcomer closes them all when the user leaves.
use cordia.Calls.Resumed.{
  HearsNew, ResumesNew, handle_signaling_message-IsTracked, on_track-IsTracked,
  resume_job-IsTracked,
}
use cordia.Base.{
  Bool, List, Option, [], ap, arith, if◌then◌else◌, inl, inr, lookup, nat_eq, none, refl, remove,
  some, str_eq, true, ℕ, ◌∙◌, ◌∷◌, ◌≡◌,
}
use cordia.Calls.{Link, SocketState, joins, Call, is_open}
use cordia.Calls.Recovery.{is_there, on_ice_state}
use cordia.Calls.Signaling.{handle_signaling_message, leave_voice_internal, leave_voice, join_voice}
use cordia.Calls.Schedule.{
  on_timer, on_socket_open, on_socket_close, CallEvent, hears, resumes, ice_changes, track_comes,
  fires, opens, closes, joins_room, leaves, renders, track_ends, render, end_track, call_step,
  call_run, no_call,
}
use cordia.Calls.Tracked.{
  held_link, IsTracked, if-IsTracked, Keeps, Keeps-IsTracked, await-IsTracked,
}
use cordia.Calls.Recovering.{ice_of-IsTracked, fire-IsTracked}
use cordia.Calls.Left.{leave_voice_internal_fields, leave_voice_internal-IsTracked}

-- Every connection of the schedule is to a newcomer, and the user leaves when the peers are rendered.
abbrev pub Fits : CallEvent → Call → Type 0
Fits (hears k m) s = HearsNew m s
Fits (resumes j ok) s = ResumesNew (lookup j s.jobs) s
Fits (joins_room room house user peer) s = s.peers_ref ≡ s.peers
Fits leaves s = s.peers_ref ≡ s.peers
Fits _ s = Unit

abbrev pub IsFitting : List CallEvent → Call → Type 0
IsFitting [] s = Unit
IsFitting (e ∷ es) s = Fits e s × IsFitting es (call_step e s)

left-IsTracked :
    (s : Call)
    → s.peers_ref ≡ s.peers
    → IsTracked none s
    → IsTracked none (if s.shown_in_voice then leave_voice_internal s else s)
left-IsTracked s rendered h =
    if-IsTracked none s.shown_in_voice (leave_voice_internal s) s
      (leave_voice_internal-IsTracked s rendered h) h

socket_open-Keeps :
    (found : Option SocketState) (k : ℕ) (s : Call) → Keeps s (on_socket_open found k s)
unfolding on_socket_open
socket_open-Keeps none k s = ground arith
socket_open-Keeps (some state) k s = ground arith

socket_close-Keeps :
    (found : Option SocketState) (k : ℕ) (s : Call) → Keeps s (on_socket_close found k s)
unfolding on_socket_close
socket_close-Keeps none k s = ground arith
socket_close-Keeps (some state) k s = ground arith

end_track-Keeps : (stream : Option Bool) (s : Call) → Keeps s (end_track stream s)
unfolding end_track
end_track-Keeps none s = ground arith
end_track-Keeps (some live) s = ground arith

call_step-IsTracked :
    (e : CallEvent) (s : Call) → Fits e s → IsTracked none s → IsTracked none (call_step e s)
unfolding call_step on_ice_state on_timer leave_voice join_voice render
call_step-IsTracked (hears k m) s fits h =
    if-IsTracked none (is_open (lookup k s.sockets)) (handle_signaling_message m s) s
      (handle_signaling_message-IsTracked m s fits h) h
call_step-IsTracked (resumes j ok) s fits h =
    resume_job-IsTracked (lookup j s.jobs) j ok s refl fits h
call_step-IsTracked (ice_changes c state) s fits h =
    ice_of-IsTracked (lookup c s.links) c state s refl h
call_step-IsTracked (track_comes c) s fits h = on_track-IsTracked (lookup c s.links) s h
call_step-IsTracked (fires n) s fits h =
    let late = record s { armed = remove n s.armed } in
    fire-IsTracked (lookup n s.armed) late (Keeps-IsTracked none s late (ground arith) h)
call_step-IsTracked (opens k) s fits h =
    Keeps-IsTracked none s _ (socket_open-Keeps (lookup k s.sockets) k s) h
call_step-IsTracked (closes k) s fits h =
    Keeps-IsTracked none s _ (socket_close-Keeps (lookup k s.sockets) k s) h
call_step-IsTracked (joins_room room house user peer) s fits h =
    await-IsTracked none (joins room house user peer) _ (left-IsTracked s fits h)
call_step-IsTracked leaves s fits h = left-IsTracked s fits h
call_step-IsTracked renders s fits h = Keeps-IsTracked none s _ (ground arith) h
call_step-IsTracked track_ends s fits h = Keeps-IsTracked none s _ (end_track-Keeps s.stream s) h

call_run-IsTracked :
    (es : List CallEvent) (s : Call)
    → IsFitting es s
    → IsTracked none s
    → IsTracked none (call_run es s)
unfolding call_run
call_run-IsTracked [] s fits h = h
call_run-IsTracked (e ∷ es) s fits h =
    call_run-IsTracked es (call_step e s) fits.1 (call_step-IsTracked e s fits.0 h)

no_call-IsTracked : IsTracked none no_call
unfolding lookup
no_call-IsTracked = record {
  tracked = λ c ne op. absurd (ground (arith, op));
  older = λ j there. absurd (ground (arith, there));
}

not_there : (o : Option Link) → (is_there o ≡ true → ⊥) → o ≡ none
not_there none h = refl
not_there (some link) h = absurd (h refl)

leave_voice-shown : (s : Call) → s.shown_in_voice ≡ true → leave_voice s ≡ leave_voice_internal s
unfolding leave_voice
leave_voice-shown s shown = rw shown refl

-- In every schedule in which each connection is made to a peer that was not there before in the call,
-- leaving the call closes all connections, if the peers are rendered and no handler waits with a
-- connection that it has not told of.
pub leave_voice-closes :
    (es : List CallEvent)
    → let s = call_run es no_call in
      IsFitting es no_call
      → s.shown_in_voice ≡ true
      → s.peers_ref ≡ s.peers
      → ((j : ℕ) → held_link (lookup j s.jobs) ≡ none)
      → (c : ℕ) → lookup c (leave_voice s).links ≡ none
unfolding lookup
leave_voice-closes es fits shown rendered idle c =
    let s = call_run es no_call in
    let h =
      leave_voice_internal-IsTracked s rendered
        (call_run-IsTracked es no_call fits no_call-IsTracked) in
    ap (λ t. lookup c t.links) (leave_voice-shown s shown)
    ∙ (not_there (lookup c (leave_voice_internal s).links) (λ op.
        elim (h.tracked c (λ e. absurd (ground (arith, e))) op) [
          | inl (p, of, free) ↦ ground (arith, of, leave_voice_internal_fields s)
          | inr (j, held) ↦ ground (arith, held, leave_voice_internal_fields s, idle j)
        ]))

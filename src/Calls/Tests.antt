-- ===== src/Calls/Tests.antt =====
-- Voice calls at an input.
use cordia.Base.{
  List, [], arith, false, keys, lookup, nat_eq, none, put, refl, remove, some, str_eq, true, units,
  ℕ, ◌∷◌, ◌≡◌, ◌≢◌,
}
use cordia.Calls.{
  await, drop_recovery, clear_recovery_timers, cleanup_peer_connection, disconnect,
  handle_peer_disconnect, find_peer_by_user_id, signal, connected, after_failure, after_disconnect,
  opened, Call, offers,
}
use cordia.Calls.Signaling.{
  created, rebuild, rebuilt, with_stream, create_connection, replace, register_next,
  handle_signaling_message, connect_to_signaling, cleanup_all, leave_voice_internal, join_voice,
  joined, resume_job, registered, leave_voice, attach,
}
use cordia.Calls.Schedule.{
  on_socket_open, render, CallEvent, hears, resumes, ice_changes, opens, joins_room, leaves,
  renders, call_step, call_run, no_call,
}
use cordia.Calls.Tracked.{held_link}
use cordia.Calls.Closed.{IsFitting, leave_voice-closes}
use cordia.Calls.Leaks.{the_link, the_peer, leave_voice-reopens}
use cordia.Calls.Again.{leave_voice-leaks}
use cordia.Calls.Recovered.{connected-clears}
use cordia.Calls.Swap.{
  Microphone, idle, SwapEvent, starts, joins, replaces, restores, swap_run, swap_step,
  hot_swap_input_device, swap_with, swap_senders, on_started, swap_all, replace_each, on_replaced,
  replace_next, retrack, add_sender, conclude,
}

-- Ann joins a room in which are Bob and Cid.
abbrev joins_ann : List CallEvent
joins_ann =
    joins_room (units "r") (units "h") (units "ann") (units "a1")
    ∷ resumes 0 true
    ∷ opens 0
    ∷ renders
    ∷ hears 0 (registered ((units "b1", units "bob") ∷ (units "c1", units "cid") ∷ []))
    ∷ []

-- The offer to Bob is made, and the one to Cid.
abbrev all_offered : List CallEvent
all_offered =
    joins_room (units "r") (units "h") (units "ann") (units "a1")
    ∷ resumes 0 true
    ∷ opens 0
    ∷ renders
    ∷ hears 0 (registered ((units "b1", units "bob") ∷ (units "c1", units "cid") ∷ []))
    ∷ resumes 1 true
    ∷ resumes 2 true
    ∷ renders
    ∷ []

-- Both have a connection with the local track.
offered :
    (call_run all_offered no_call).links
    ≡ (0, the_link (units "b1")) ∷ (1, the_link (units "c1")) ∷ []
unfolding call_run call_step join_voice leave_voice resume_job joined connect_to_signaling
    on_socket_open render handle_signaling_message register_next replace handle_peer_disconnect
    disconnect find_peer_by_user_id create_connection with_stream rebuild created rebuilt attach
    signal await cleanup_all leave_voice_internal cleanup_peer_connection clear_recovery_timers
    drop_recovery lookup put remove
offered = refl

all_offered-IsFitting : IsFitting all_offered no_call
unfolding call_run call_step join_voice leave_voice resume_job joined connect_to_signaling
    on_socket_open render handle_signaling_message register_next replace handle_peer_disconnect
    disconnect find_peer_by_user_id create_connection with_stream rebuild created rebuilt attach
    signal await cleanup_all leave_voice_internal cleanup_peer_connection clear_recovery_timers
    drop_recovery lookup put remove
all_offered-IsFitting = (refl, (tt, (tt, (tt, ((refl, refl), ((refl, refl), (tt, (tt, tt))))))))

rendered : (call_run all_offered no_call).peers_ref ≡ (call_run all_offered no_call).peers
unfolding call_run call_step join_voice leave_voice resume_job joined connect_to_signaling
    on_socket_open render handle_signaling_message register_next replace handle_peer_disconnect
    disconnect find_peer_by_user_id create_connection with_stream rebuild created rebuilt attach
    signal await cleanup_all leave_voice_internal cleanup_peer_connection clear_recovery_timers
    drop_recovery lookup put remove
rendered = refl

shown : (call_run all_offered no_call).shown_in_voice ≡ true
unfolding call_run call_step join_voice leave_voice resume_job joined connect_to_signaling
    on_socket_open render handle_signaling_message register_next replace handle_peer_disconnect
    disconnect find_peer_by_user_id create_connection with_stream rebuild created rebuilt attach
    signal await cleanup_all leave_voice_internal cleanup_peer_connection clear_recovery_timers
    drop_recovery lookup put remove
shown = refl

nobody_waits : (j : ℕ) → held_link (lookup j (call_run all_offered no_call).jobs) ≡ none
unfolding call_run call_step join_voice leave_voice resume_job joined connect_to_signaling
    on_socket_open render handle_signaling_message register_next replace handle_peer_disconnect
    disconnect find_peer_by_user_id create_connection with_stream rebuild created rebuilt attach
    signal await cleanup_all leave_voice_internal cleanup_peer_connection clear_recovery_timers
    drop_recovery lookup put remove
nobody_waits j = refl

leave_voice-closes_example : lookup 1 (leave_voice (call_run all_offered no_call)).links ≡ none
leave_voice-closes_example =
    leave_voice-closes all_offered all_offered-IsFitting shown rendered nobody_waits 1

-- As in `joins_ann`, with the offer to Bob on its way.
abbrev calling : Call
calling = record no_call {
  peers = (units "b1", the_peer (units "b1") (units "bob") 0) ∷ [];
  peers_ref = (units "b1", the_peer (units "b1") (units "bob") 0) ∷ [];
  links = (0, the_link (units "b1")) ∷ [];
  next_link = 1;
  room = some (units "r");
  house = some (units "h");
  is_in_voice = true;
  shown_in_voice = true;
  socket = some 0;
  sockets = (0, opened) ∷ [];
  next_socket = 1;
  stream = some true;
  jobs = (1, offers (units "b1") ((units "c1", units "cid") ∷ [])) ∷ [];
  next_job = 2;
}

leave_voice-reopens_example :
    let t = call_run (leaves ∷ resumes 1 true ∷ resumes 2 true ∷ []) calling in
    (t.is_in_voice ≡ false)
    × (t.stream ≡ some true)
    × (t.meters ≡ 1)
    × (lookup (units "c1") t.peers ≡ some (the_peer (units "c1") (units "cid") 1))
    × (lookup 1 t.links ≡ some (the_link (units "c1")))
unfolding lookup
leave_voice-reopens_example =
    leave_voice-reopens 1 true (units "b1") (units "c1") (units "cid") [] calling refl refl refl

leave_voice-leaks_example :
    let t =
      call_run
        (hears 0 (registered ((units "b1", units "bob") ∷ [])) ∷ renders ∷ leaves ∷ [])
        calling in
    (lookup 1 t.links ≡ some (the_link (units "b1"))) × (t.peers ≡ []) × (t.is_in_voice ≡ false)
unfolding lookup find_peer_by_user_id
leave_voice-leaks_example =
    leave_voice-leaks 0 (units "b1") (units "bob") (the_peer (units "b1") (units "bob") 0) calling
      refl refl refl (λ e. absurd (ground (arith, e))) refl refl (omega arith)

there_is_bob : lookup 0 (call_run all_offered no_call).links ≡ some (the_link (units "b1"))
unfolding call_run call_step join_voice leave_voice resume_job joined connect_to_signaling
    on_socket_open render handle_signaling_message register_next replace handle_peer_disconnect
    disconnect find_peer_by_user_id create_connection with_stream rebuild created rebuilt attach
    signal await cleanup_all leave_voice_internal cleanup_peer_connection clear_recovery_timers
    drop_recovery lookup put remove
there_is_bob = refl

connected-clears_example :
    (lookup 0 (call_step (ice_changes 0 connected) (call_run all_offered no_call)).armed
      ≢ some (after_failure (units "b1")))
    × (lookup 0 (call_step (ice_changes 0 connected) (call_run all_offered no_call)).armed
        ≢ some (after_disconnect (units "b1")))
connected-clears_example = connected-clears all_offered 0 (the_link (units "b1")) there_is_bob 0

-- Two peers have a sender.
abbrev speaking : Microphone
speaking = record {
  in_voice = true;
  meter = some 7;
  stream = some (7, true);
  running = 7 ∷ [];
  senders = (0, 7) ∷ (1, 7) ∷ [];
  next_sender = 2;
  swap = idle;
}

-- Another peer joins while the first sender gets the new track.
abbrev joined_late : List SwapEvent
joined_late = starts (some 8) ∷ joins ∷ replaces true ∷ replaces true ∷ []

-- It is sent the track of a meter that does not run.
late_track :
    ((swap_run joined_late (hot_swap_input_device speaking)).senders
      ≡ (0, 8) ∷ (1, 8) ∷ (2, 7) ∷ [])
    × ((swap_run joined_late (hot_swap_input_device speaking)).running ≡ 8 ∷ [])
unfolding swap_run swap_step hot_swap_input_device swap_with swap_senders on_started swap_all
    replace_each on_replaced replace_next retrack add_sender conclude keys
late_track = (refl, refl)

-- The second of the two takes no other track, and the first gets the old one back.
abbrev refused_once : List SwapEvent
refused_once = starts (some 8) ∷ replaces true ∷ joins ∷ replaces false ∷ restores true ∷ []

-- ===== src/Calls/Swap.antt =====
-- Another microphone during a call: `hotSwapInputDevice` and `reinitializeAudio` of
-- src/contexts/WebRTCContext.tsx. A meter and its track have one number, and so has a sender of a
-- peer connection. The swap runs to its next `await`: the start of the new meter, with the settings
-- that are loaded before, and each replaceTrack. What comes then is an event: the await ends, or a peer
-- joins or leaves. One swap runs at a time, and leaving the call meanwhile is left out.
pub mod Stands
pub mod Whole
use cordia.Base.{
  Bool, Dict, List, Option, [], false, if◌then◌else◌, keep, keys, nat_eq, none, not, some, str_eq,
  true, ℕ, ◌++◌, ◌+◌, ◌==◌, ◌∷◌,
}

pub data SwapError : Type 0 where
  during_call no_meter no_local_stream old_not_live device_failed : SwapError
  swap_failed : List ℕ → SwapError

-- `ahead` are the senders that the loop has still to come to, `successful` successfulPeers and
-- `failed_senders` failedPeers.
pub record SwapJob : Type 0 where
  pub old_meter : ℕ
  pub old_track : ℕ
  pub new_track : ℕ
  pub ahead : List ℕ
  pub successful : List ℕ
  pub failed_senders : List ℕ

-- Where the swap waits: for the new meter, for a replaceTrack of the new track, or of the old one.
pub data Swap : Type 0 where
  idle reinitializing : Swap
  starting : ℕ → ℕ → List ℕ → Swap
  replacing rolling_back : SwapJob → Swap
  ended : Option SwapError → Swap

-- `stream` is the track of the local stream, with whether it is live, `running` the meters that run,
-- and `senders` the audio senders of the peers, with their tracks.
pub record Microphone : Type 0 where
  pub in_voice : Bool
  pub meter : Option ℕ
  pub stream : Option (ℕ × Bool)
  pub running : List ℕ
  pub senders : Dict ℕ ℕ
  pub next_sender : ℕ
  pub swap : Swap

abbrev pub stop : ℕ → List ℕ → List ℕ
stop meter running = keep (λ other. not (other == meter)) running

abbrev pub stop_meter : Option ℕ → List ℕ → List ℕ
stop_meter none running = running
stop_meter (some meter) running = stop meter running

-- Up to the start of the meter.
unfoldable pub reinitialize_audio : Microphone → Microphone
reinitialize_audio s =
    if s.in_voice
    then record s { swap = ended (some during_call) }
    else record s { meter = none; running = stop_meter s.meter s.running; swap = reinitializing }

unfoldable pub swap_senders : ℕ → ℕ → Dict ℕ ℕ → Microphone → Microphone
swap_senders old track [] s = reinitialize_audio s
swap_senders old track (sender ∷ senders) s = record s {
  swap = starting old track (keys (sender ∷ senders));
}

-- The preconditions, in their order
unfoldable pub swap_with : Option ℕ → Option (ℕ × Bool) → Microphone → Microphone
swap_with none stream s = record s { swap = ended (some no_meter) }
swap_with (some old) none s = record s { swap = ended (some no_local_stream) }
swap_with (some old) (some (track, live)) s =
    if live
    then swap_senders old track s.senders s
    else record s { swap = ended (some old_not_live) }

-- Up to the first await
unfoldable pub hot_swap_input_device : Microphone → Microphone
hot_swap_input_device s = if s.in_voice then swap_with s.meter s.stream s else reinitialize_audio s

-- sender.replaceTrack(track), where the sender's peer is still there
unfoldable pub retrack : ℕ → ℕ → Dict ℕ ℕ → Dict ℕ ℕ
retrack sender track [] = []
retrack sender track ((other, old) ∷ senders) =
    (other, if other == sender then track else old) ∷ retrack sender track senders

-- The loop that gives the old track back, from its next await on.
unfoldable pub roll_back : SwapJob → List ℕ → Microphone → Microphone
roll_back job [] s = record s {
  running = stop job.new_track s.running;
  swap = ended (some (swap_failed job.failed_senders));
}
roll_back job (sender ∷ senders) s = record s {
  swap = rolling_back (record job { ahead = sender ∷ senders });
}

-- After the loop.
unfoldable pub conclude : SwapJob → List ℕ → Microphone → Microphone
conclude job [] s = record s {
  meter = some job.new_track;
  stream = some (job.new_track, true);
  running = stop job.old_meter s.running;
  swap = ended none;
}
conclude job (sender ∷ refused) s = roll_back job job.successful s

-- The loop over the senders, from its next await on.
unfoldable pub replace_each : SwapJob → List ℕ → Microphone → Microphone
replace_each job [] s = conclude job job.failed_senders s
replace_each job (sender ∷ senders) s = record s {
  swap = replacing (record job { ahead = sender ∷ senders });
}

-- The new meter has started, with a live track, or it has not.
unfoldable pub swap_all : Option ℕ → ℕ → ℕ → List ℕ → Microphone → Microphone
swap_all none old track senders s = record s { swap = ended (some device_failed) }
swap_all (some m) old track senders s =
    replace_each
      (record {
        old_meter = old;
        old_track = track;
        new_track = m;
        ahead = senders;
        successful = [];
        failed_senders = [];
      })
      senders (record s { running = m ∷ s.running })

unfoldable pub restart : Option ℕ → Microphone → Microphone
restart none s = record s { swap = ended (some device_failed) }
restart (some m) s = record s { meter = some m; running = m ∷ s.running; swap = ended none }

unfoldable pub on_started : Option ℕ → Swap → Microphone → Microphone
on_started device (starting old track senders) s = swap_all device old track senders s
on_started device reinitializing s = restart device s
on_started device _ s = s

unfoldable pub replace_next : Bool → SwapJob → List ℕ → Microphone → Microphone
replace_next ok job [] s = s
replace_next true job (sender ∷ senders) s =
    replace_each (record job { successful = job.successful ++ sender ∷ [] }) senders
      (record s { senders = retrack sender job.new_track s.senders })
replace_next false job (sender ∷ senders) s =
    replace_each (record job { failed_senders = job.failed_senders ++ sender ∷ [] }) senders s

unfoldable pub on_replaced : Bool → Swap → Microphone → Microphone
on_replaced ok (replacing job) s = replace_next ok job job.ahead s
on_replaced ok _ s = s

unfoldable pub restore_next : Bool → SwapJob → List ℕ → Microphone → Microphone
restore_next ok job [] s = s
restore_next ok job (sender ∷ senders) s =
    roll_back job senders
      (record s { senders = if ok then retrack sender job.old_track s.senders else s.senders })

unfoldable pub on_restored : Bool → Swap → Microphone → Microphone
on_restored ok (rolling_back job) s = restore_next ok job job.ahead s
on_restored ok _ s = s

-- A peer connection gets the track of the local stream.
unfoldable pub add_sender : Option (ℕ × Bool) → Microphone → Microphone
add_sender none s = s
add_sender (some (track, live)) s = record s {
  senders = s.senders ++ (s.next_sender, track) ∷ [];
  next_sender = s.next_sender + 1;
}

pub data SwapEvent : Type 0 where
  starts : Option ℕ → SwapEvent
  replaces restores : Bool → SwapEvent
  joins : SwapEvent
  leaves : ℕ → SwapEvent

unfoldable pub swap_step : SwapEvent → Microphone → Microphone
swap_step (starts device) s = on_started device s.swap s
swap_step (replaces ok) s = on_replaced ok s.swap s
swap_step (restores ok) s = on_restored ok s.swap s
swap_step joins s = add_sender s.stream s
swap_step (leaves sender) s = record s { senders = keep (λ b. not (b.0 == sender)) s.senders }

unfoldable pub swap_run : List SwapEvent → Microphone → Microphone
swap_run [] s = s
swap_run (e ∷ es) s = swap_run es (swap_step e s)

-- ===== src/Calls/Swap/Whole.antt =====
-- The swap is made for all senders that it began with, or for none.
use cordia.Base.{
  [], ap, false, if◌then◌else◌, nat_eq, none, some, str_eq, true, ℕ, ◌++◌, ◌+◌, ◌∙◌, ◌∷◌, ◌≡◌,
}
use cordia.Calls.Swap.{
  stop_meter, during_call, Swap, reinitializing, ended, Microphone, reinitialize_audio,
  swap_senders, swap_with, hot_swap_input_device, SwapEvent, restores,
}
use cordia.Calls.Swap.Stands.{Stands}

-- replaceTrack takes the old track back.
abbrev pub TakesBack : SwapEvent → Type 0
TakesBack (restores false) = ⊥
TakesBack _ = Unit

begins :
    (old : ℕ) (s : Microphone)
    → s.in_voice ≡ true
    → s.meter ≡ some old
    → s.stream ≡ some (old, true)
    → hot_swap_input_device s ≡ swap_senders old old s.senders s
unfolding swap_with hot_swap_input_device
begins old s inside meter stream =
    ap (λ b. if b then swap_with s.meter s.stream s else reinitialize_audio s) inside
    ∙ ap (λ o. swap_with o s.stream s) meter
    ∙ ap (λ o. swap_with (some old) o s) stream

module _ (old n : ℕ) where
  abbrev with_sender : ℕ → Microphone → Microphone
  with_sender track s = record s {
    senders = s.senders ++ (s.next_sender, track) ∷ [];
    next_sender = s.next_sender + 1;
  }

reinitialize_inside :
    (s : Microphone)
    → s.in_voice ≡ true
    → reinitialize_audio s ≡ record s { swap = ended (some during_call) }
unfolding reinitialize_audio
reinitialize_inside s inside =
    ap {B = Microphone}
      (λ b. if b then record s { swap = ended (some during_call) } else record s {
        meter = none;
        running = stop_meter s.meter s.running;
        swap = reinitializing;
      })
      inside

-- In a call that nobody else has joined, the device cannot be changed: the swap goes on to the
-- reinitialisation, which refuses it during a call.
hot_swap-alone :
    (old : ℕ) (s : Microphone)
    → s.in_voice ≡ true
    → s.meter ≡ some old
    → s.stream ≡ some (old, true)
    → s.senders ≡ []
    → hot_swap_input_device s ≡ record s { swap = ended (some during_call) }
unfolding swap_senders
hot_swap-alone old s inside meter stream alone =
    begins old s inside meter stream
    ∙ ap (λ l. swap_senders old old l s) alone
    ∙ reinitialize_inside s inside

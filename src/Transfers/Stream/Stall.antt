-- ===== src/Transfers/Stream/Stall.antt =====
-- A `flow_resume` that is lost stops the transfer.
use cordia.Base.{nat_eq, str_eq}
use cordia.Transfers.Stream.{Event, written, finished, round}

-- What may come while the sender is paused: the rounds and the ends of native calls.
abbrev pub ComesPaused : Event → Type 0
ComesPaused (round sends) = Unit
ComesPaused (written ok) = Unit
ComesPaused (finished ok) = Unit
ComesPaused _ = ⊥

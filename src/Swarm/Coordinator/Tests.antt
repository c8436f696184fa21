-- ===== src/Swarm/Coordinator/Tests.antt =====
-- Concrete runs of the swarm coordinator.
use cordia.Base.{List, [], lookup, nat_eq, put, refl, remove, str_eq, trim, units, ◌∷◌, ◌≡◌}
use cordia.Swarm.Coordinator.{
  resolved, superseded, timed_out, stopped, key, settle, settle_pending, ask, request_peers,
  on_peer_list, fire, on_timeout, stop_each, stop, coordinate, CoordinatorEvent, asked, answered,
  fired, shut, coordinate_all, new_coordinator,
}
use cordia.Swarm.Coordinator.Settled.{IsOrderly, coordinate_all-IsOrderly}

-- A request is superseded, the newer one is answered, a third one times out, a fourth is stopped.
abbrev events : List CoordinatorEvent
events =
    asked (units "k") (units "h")
    ∷ asked (units "k") (units "h")
    ∷ answered (units " k") (units "h ") (units "ann" ∷ [])
    ∷ asked (units "k") (units "g")
    ∷ fired 2
    ∷ asked (units "k") (units "f")
    ∷ shut
    ∷ []

events_settled :
    (coordinate_all events new_coordinator).settled
    ≡ (3, stopped) ∷ (2, timed_out) ∷ (1, resolved (units "ann" ∷ [])) ∷ (0, superseded) ∷ []
unfolding coordinate_all coordinate new_coordinator request_peers on_peer_list on_timeout stop
    stop_each fire ask settle_pending settle key trim lookup put remove
events_settled = refl

coordinate_all-IsOrderly_example : IsOrderly (coordinate_all events new_coordinator)
coordinate_all-IsOrderly_example = coordinate_all-IsOrderly events

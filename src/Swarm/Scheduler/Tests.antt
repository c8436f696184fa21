-- ===== src/Swarm/Scheduler/Tests.antt =====
-- Runs of the scheduler, and its theorems at an input.
use cordia.Base.{
  Str, [], arith, false, lookup, nat_eq, refl, some, sort_by, str_eq, true, units, ℕ, ◌∷◌, ◌≡◌, ◌≤◌,
}
use cordia.Swarm.Scheduler.{
  PieceScheduler, pos, set_peer_bitfield, remove_peer, mark_have, pick_next_piece_for_peer,
  get_availability,
}
use cordia.Swarm.Scheduler.Counts.{holders}
use cordia.Swarm.Scheduler.Choice.{IsWf, step-IsWf, IsEligible, pick_next_piece_for_peer-rarest}

abbrev ann : Str
ann = units "ann"

abbrev bob : Str
bob = units "bob"

-- Three pieces; both peers have piece 0, and only ann has piece 2.
abbrev shared : PieceScheduler
shared = record {
  piece_count = 3;
  local_have = false ∷ false ∷ false ∷ [];
  peer_bitfields = (ann, true ∷ false ∷ true ∷ []) ∷ (bob, true ∷ []) ∷ [];
}

shared-IsWf : IsWf shared
shared-IsWf = record { marks = refl; bitfields = omega arith }

pick_rare : pick_next_piece_for_peer shared ann [] ≡ some 2
unfolding pick_next_piece_for_peer lookup sort_by get_availability
pick_rare = refl

step-IsWf_example :
    IsWf (set_peer_bitfield shared bob (true ∷ true ∷ []))
    × IsWf (remove_peer shared bob)
    × IsWf (mark_have shared (pos 7))
step-IsWf_example = step-IsWf shared bob (true ∷ true ∷ []) (pos 7) shared-IsWf

pick_next_piece_for_peer-rarest_example :
    IsEligible shared (true ∷ false ∷ true ∷ []) [] 2
    × ((j : ℕ)
        → IsEligible shared (true ∷ false ∷ true ∷ []) [] j
        → holders shared.peer_bitfields 2 ≤ holders shared.peer_bitfields j)
unfolding lookup
pick_next_piece_for_peer-rarest_example =
    pick_next_piece_for_peer-rarest shared ann (true ∷ false ∷ true ∷ []) [] 2 shared-IsWf refl
      pick_rare

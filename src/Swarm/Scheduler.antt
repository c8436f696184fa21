-- ===== src/Swarm/Scheduler.antt =====
-- src/lib/swarm/pieceScheduler.ts: which piece to fetch next from a peer.
pub mod Counts
pub mod Choice
mod Tests
use cordia.Base.{
  Bool, Dict, List, Option, Str, [], assign, contains, false, find, get_or, if◌then◌else◌, keep,
  leb, lookup, ltb, nat_eq, none, put, remove, replicate, some, sort_by, str_eq, suc, take, true,
  zero, ℕ, ◌+◌, ◌∷◌,
}

-- A JavaScript integer: `negsuc n` is -(n + 1).
pub data ℤ : Type 0 where
  pos : ℕ → ℤ
  negsuc : ℕ → ℤ

pub record PieceAvailability : Type 0 where
  pub piece_index : ℕ
  pub peer_count : ℕ

pub record PieceScheduler : Type 0 where
  pub piece_count : ℕ
  pub local_have : List Bool
  pub peer_bitfields : Dict Str (List Bool)

-- Math.max(0, n)
abbrev max_zero : ℤ → ℕ
max_zero (pos n) = n
max_zero (negsuc n) = 0

-- Array.from({ length }, (_, i) => Boolean(initial?.[i]))
have_from : ℕ → List Bool → List Bool
have_from zero initial = []
have_from (suc n) [] = false ∷ have_from n []
have_from (suc n) (b ∷ bs) = b ∷ have_from n bs

-- The constructor; a missing `initialHave` is the empty array.
pub new : ℤ → List Bool → PieceScheduler
unfolding have_from
new count initial = record {
  piece_count = max_zero count;
  local_have = have_from (max_zero count) initial;
  peer_bitfields = [];
}

pub set_peer_bitfield : PieceScheduler → Str → List Bool → PieceScheduler
set_peer_bitfield s peer bitfield = record s {
  peer_bitfields = put peer (take s.piece_count bitfield) s.peer_bitfields;
}

pub remove_peer : PieceScheduler → Str → PieceScheduler
remove_peer s peer = record s { peer_bitfields = remove peer s.peer_bitfields }

pub mark_have : PieceScheduler → ℤ → PieceScheduler
mark_have s (negsuc n) = s
mark_have s (pos i) =
    if leb s.piece_count i then s else record s { local_have = assign false s.local_have i true }

-- xs[i], where a missing item is falsy
abbrev pub flag : List Bool → ℕ → Bool
flag xs i = get_or xs i false

-- The loop of `getMissingPieceCount`, with `left` rounds to go.
missing_from : List Bool → ℕ → ℕ → ℕ
missing_from have i zero = 0
missing_from have i (suc left) =
    let rest = missing_from have (suc i) left in if flag have i then rest else suc rest

pub get_missing_piece_count : PieceScheduler → ℕ
unfolding missing_from
get_missing_piece_count s = missing_from s.local_have 0 s.piece_count

-- One round of the `forEach`: adds a peer's bitfield to the counts, as far as both go.
tally : List ℕ → List Bool → List ℕ
tally [] bf = []
tally (c ∷ cs) [] = c ∷ cs
tally (c ∷ cs) (b ∷ bs) = (if b then c + 1 else c) ∷ tally cs bs

tally_all : List ℕ → Dict Str (List Bool) → List ℕ
tally_all counts [] = counts
tally_all counts ((peer, bf) ∷ peers) = tally_all (tally counts bf) peers

-- counts.map((peerCount, pieceIndex) => …)
numbered : ℕ → List ℕ → List PieceAvailability
numbered i [] = []
numbered i (c ∷ cs) = record { piece_index = i; peer_count = c } ∷ numbered (suc i) cs

pub get_availability : PieceScheduler → List PieceAvailability
unfolding tally tally_all numbered
get_availability s = numbered 0 (tally_all (replicate s.piece_count 0) s.peer_bitfields)

-- The three `continue`s of the loop.
wanted : List Bool → List ℕ → List Bool → PieceAvailability → Bool
wanted have in_flight bitfield a =
    if flag have a.piece_index
    then false
    else if contains in_flight a.piece_index
    then false
    else flag bitfield a.piece_index

rarest_first : List PieceAvailability → List PieceAvailability
rarest_first pieces = sort_by (λ a. a.peer_count) (keep (λ a. ltb 0 a.peer_count) pieces)

pick_from : PieceScheduler → List Bool → List ℕ → Option ℕ
unfolding wanted rarest_first
pick_from s bitfield in_flight =
    elim (find (wanted s.local_have in_flight bitfield) (rarest_first (get_availability s))) [
      | none ↦ none
      | some a ↦ some a.piece_index
    ]

-- A peer with no bitfield, or an empty one, has nothing to offer.
offer : PieceScheduler → Option (List Bool) → List ℕ → Option ℕ
unfolding pick_from
offer s none in_flight = none
offer s (some []) in_flight = none
offer s (some (b ∷ bs)) in_flight = pick_from s (b ∷ bs) in_flight

pub pick_next_piece_for_peer : PieceScheduler → Str → List ℕ → Option ℕ
unfolding offer
pick_next_piece_for_peer s peer in_flight = offer s (lookup peer s.peer_bitfields) in_flight

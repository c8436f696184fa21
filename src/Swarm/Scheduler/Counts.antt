-- ===== src/Swarm/Scheduler/Counts.antt =====
-- What the counts of the scheduler mean.
use cordia.Base.{
  Bool, Dict, List, Option, Str, [], arith, assign, eqb, eqb_iff, false, get_elem?, if◌then◌else◌,
  leb, lookup, ltb, nat_eq, none, refl, replicate, some, str_eq, suc, true, zero, ℕ, ◌&&◌, ◌+◌, ◌<◌,
  ◌∷◌, ◌≡◌, ◌≤◌,
}
use mathlib.Core.Option
use cordia.Swarm.Scheduler.{
  PieceScheduler, pos, mark_have, flag, tally, tally_all, numbered, get_availability, missing_from,
  get_missing_piece_count,
}

-- How many of the peers say that they have piece `i`.
unfoldable pub holders : Dict Str (List Bool) → ℕ → ℕ
holders [] i = 0
holders ((peer, bf) ∷ peers) i = (if flag bf i then 1 else 0) + holders peers i

pub holders_pos :
    (d : Dict Str (List Bool)) (peer : Str) (bf : List Bool) (i : ℕ)
    → lookup peer d ≡ some bf
    → flag bf i ≡ true
    → 0 < holders d i
unfolding lookup holders
holders_pos [] peer bf i e h = absurd (ground arith)
holders_pos ((p, b) ∷ d) peer bf i e h = ground (arith, holders_pos d peer bf i)

-- A count, raised by the peers that come after.
raised : Option ℕ → ℕ → Option ℕ
raised none n = none
raised (some c) n = some (c + n)

get_elem?-tally :
    (cs : List ℕ) (bf : List Bool) (i : ℕ)
    → get_elem? (tally cs bf) i ≡ raised (get_elem? cs i) (if flag bf i then 1 else 0)
unfolding tally raised
get_elem?-tally [] bf i = refl
get_elem?-tally (c ∷ cs) [] zero = ground arith
get_elem?-tally (c ∷ cs) [] (suc i) = ground (arith, get_elem?-tally cs [] i)
get_elem?-tally (c ∷ cs) (b ∷ bs) zero = ground arith
get_elem?-tally (c ∷ cs) (b ∷ bs) (suc i) = get_elem?-tally cs bs i

get_elem?-tally_all :
    (cs : List ℕ) (peers : Dict Str (List Bool)) (i : ℕ)
    → get_elem? (tally_all cs peers) i ≡ raised (get_elem? cs i) (holders peers i)
unfolding tally_all holders raised
get_elem?-tally_all cs [] i = ground arith
get_elem?-tally_all cs ((peer, bf) ∷ peers) i =
    ground (arith, get_elem?-tally_all (tally cs bf) peers i, get_elem?-tally cs bf i)

get_elem?-replicate :
    (n i : ℕ) → get_elem? {A = ℕ} (replicate n 0) i ≡ (if ltb i n then some 0 else none)
get_elem?-replicate zero i = ground arith
get_elem?-replicate (suc n) zero = ground arith
get_elem?-replicate (suc n) (suc i) = ground (arith, get_elem?-replicate n i)

get_elem?-numbered :
    (k : ℕ) (cs : List ℕ) (i : ℕ)
    → get_elem? (numbered k cs) i
      ≡ Option.map (λ c. record { piece_index = k + i; peer_count = c }) (get_elem? cs i)
unfolding numbered
get_elem?-numbered k [] i = refl
get_elem?-numbered k (c ∷ cs) zero = ground arith
get_elem?-numbered k (c ∷ cs) (suc i) =
    let e : suc k + i ≡ k + suc i = omega arith in rw (← e) (get_elem?-numbered (suc k) cs i)

-- The availability list has an entry for each piece, in order, with the number of peers that
-- have the piece, and no other entry.
pub get_elem?-get_availability :
    (s : PieceScheduler) (i : ℕ)
    → get_elem? (get_availability s) i ≡ (
        if ltb i s.piece_count
        then some (record { piece_index = i; peer_count = holders s.peer_bitfields i })
        else none)
unfolding get_availability raised
get_elem?-get_availability s i = ground (
  arith,
  get_elem?-numbered 0 (tally_all (replicate s.piece_count 0) s.peer_bitfields) i,
  get_elem?-tally_all (replicate s.piece_count 0) s.peer_bitfields i,
  get_elem?-replicate s.piece_count i,
)

flag-assign :
    (xs : List Bool) (j i : ℕ)
    → flag (assign false xs j true) i ≡ (if eqb j i then true else flag xs i)
flag-assign [] zero zero = ground arith
flag-assign [] zero (suc i) = ground arith
flag-assign [] (suc j) zero = ground arith
flag-assign [] (suc j) (suc i) = ground (arith, flag-assign [] j i)
flag-assign (x ∷ xs) zero zero = ground arith
flag-assign (x ∷ xs) zero (suc i) = ground arith
flag-assign (x ∷ xs) (suc j) zero = ground arith
flag-assign (x ∷ xs) (suc j) (suc i) = ground (arith, flag-assign xs j i)

-- Whether the write at `j` fills a gap that the loop over `left` places from `i` counts.
fills : List Bool → ℕ → ℕ → ℕ → ℕ
fills have j i left = if leb i j && ltb j (i + left) then (if flag have j then 0 else 1) else 0

missing_from-assign :
    (have : List Bool) (j i left : ℕ)
    → missing_from (assign false have j true) i left + fills have j i left
      ≡ missing_from have i left
unfolding missing_from fills
missing_from-assign have j i zero = ground arith
missing_from-assign have j i (suc left) =
    ground (arith, missing_from-assign have j (suc i) left, flag-assign have j i)

-- Marking a piece takes one off the number of missing pieces if the piece was missing, and
-- changes nothing if it was there.
get_missing_piece_count-mark_have :
    (s : PieceScheduler) (i : ℕ)
    → i < s.piece_count
    → get_missing_piece_count (mark_have s (pos i)) + (if flag s.local_have i then 0 else 1)
      ≡ get_missing_piece_count s
unfolding get_missing_piece_count mark_have fills
get_missing_piece_count-mark_have s i h =
    ground (arith, missing_from-assign s.local_have i 0 s.piece_count)

missing_from-eq-zero :
    (have : List Bool) (i left j : ℕ)
    → missing_from have i left ≡ 0
    → i ≤ j
    → j < i + left
    → flag have j ≡ true
unfolding missing_from
missing_from-eq-zero have i zero j e h k = absurd (omega arith)
missing_from-eq-zero have i (suc left) j e h k =
    ground (arith, missing_from-eq-zero have (suc i) left j, eqb_iff i j)

-- With no piece missing, every piece is marked.
pub flag_of_complete :
    (s : PieceScheduler) (i : ℕ)
    → get_missing_piece_count s ≡ 0
    → i < s.piece_count
    → flag s.local_have i ≡ true
unfolding get_missing_piece_count
flag_of_complete s i e h =
    missing_from-eq-zero s.local_have 0 s.piece_count i e (omega arith) (omega arith)

-- ===== src/Swarm/Scheduler/Choice.antt =====
-- The choice of the next piece: it is eligible, rarest among the eligible, and missed only if none is.
use cordia.Base.{
  All, All-get_elem?, All-keep, All-of_get_elem?, All-of_keep, All-put, All-remove, All-sort_by,
  Bool, Bool-cases, List, Option-cases, Str, [], ap, arith, contains, false, find, find-All,
  find-eq-none, find-least, find_holds, inl, inr, leb, length, length-assign, length-take, lookup,
  lookup-All, ltb, nat_eq, none, refl, some, sort_by-All, sort_by-IsSortedBy, str_eq, suc, true,
  zero, ℕ, ◌<◌, ◌↔◌, ◌∷◌, ◌≡◌, ◌≤◌, ◌⊎◌,
}
use cordia.Swarm.Scheduler.{
  PieceScheduler, PieceAvailability, ℤ, pos, negsuc, new, max_zero, have_from, set_peer_bitfield,
  remove_peer, mark_have, flag, get_availability, wanted, rarest_first, pick_from, offer,
  pick_next_piece_for_peer,
}
use cordia.Swarm.Scheduler.Counts.{holders, holders_pos, get_elem?-get_availability}

-- The shape of the state: a mark for each piece, and no bitfield that is longer.
pub record IsWf (s : PieceScheduler) : Type 0 where
  pub marks : length s.local_have ≡ s.piece_count
  pub bitfields : All (λ b. length b.1 ≤ s.piece_count) s.peer_bitfields

length-have_from : (n : ℕ) (initial : List Bool) → length (have_from n initial) ≡ n
unfolding have_from
length-have_from zero initial = refl
length-have_from (suc n) [] = ap suc (length-have_from n [])
length-have_from (suc n) (b ∷ bs) = ap suc (length-have_from n bs)

-- A new scheduler is well formed, also for a negative number of pieces.
pub new-IsWf : (count : ℤ) (initial : List Bool) → IsWf (new count initial)
unfolding new
new-IsWf count initial = record {
  marks = length-have_from (max_zero count) initial;
  bitfields = tt;
}

-- Every operation keeps the state well formed, whatever its arguments.
pub step-IsWf :
    (s : PieceScheduler) (peer : Str) (bitfield : List Bool) (i : ℤ)
    → IsWf s
    → IsWf (set_peer_bitfield s peer bitfield) × IsWf (remove_peer s peer) × IsWf (mark_have s i)
unfolding set_peer_bitfield remove_peer mark_have
step-IsWf s peer bitfield i w = (
  record {
    marks = w.marks;
    bitfields =
        All-put (λ b. length b ≤ s.piece_count) peer _ s.peer_bitfields
          (omega (arith, length-take s.piece_count bitfield)) w.bitfields;
  },
  record {
    marks = w.marks;
    bitfields = All-remove (λ b. length b ≤ s.piece_count) peer s.peer_bitfields w.bitfields;
  },
  mark_have-IsWf i,
)
  where
    mark_have-IsWf : (j : ℤ) → IsWf (mark_have s j)
    mark_have-IsWf (negsuc n) = w
    mark_have-IsWf (pos j) = elim (Bool-cases (leb s.piece_count j)) [
      | inl out ↦ rw (out, mark_have) w
      | inr inside ↦
          rw (inside, mark_have)
            (record {
              marks = omega (
                arith,
                length-assign false s.local_have j true (ground (arith, inside, w.marks)),
                w.marks,
              );
              bitfields = w.bitfields;
            })
    ]

-- The peer has the piece; we have it not, and are not fetching it.
abbrev pub IsEligible : PieceScheduler → List Bool → List ℕ → ℕ → Type 0
IsEligible s bitfield in_flight i =
    (flag s.local_have i ≡ false) × (contains in_flight i ≡ false) × (flag bitfield i ≡ true)

wanted_iff :
    (s : PieceScheduler) (bf : List Bool) (fl : List ℕ) (a : PieceAvailability)
    → (wanted s.local_have fl bf a ≡ true) ↔ IsEligible s bf fl a.piece_index
unfolding wanted
wanted_iff s bf fl a = ground arith

flag-lt : (bf : List Bool) (i : ℕ) → flag bf i ≡ true → i < length bf
flag-lt [] i h = absurd (ground arith)
flag-lt (b ∷ bs) zero h = omega arith
flag-lt (b ∷ bs) (suc i) h = omega (arith, flag-lt bs i h)

-- What holds of the candidates, in their order of rarity, holds of each eligible piece.
candidates :
    (P : PieceAvailability → Type 0) (s : PieceScheduler) (peer : Str) (bf : List Bool)
    → IsWf s
    → lookup peer s.peer_bitfields ≡ some bf
    → All P (rarest_first (get_availability s))
    → (i : ℕ) → flag bf i ≡ true
    → P (record { piece_index = i; peer_count = holders s.peer_bitfields i })
unfolding rarest_first
candidates P s peer bf w e h i f =
    let present : 0 < holders s.peer_bitfields i = holders_pos s.peer_bitfields peer bf i e f in
    let inside : i < s.piece_count = omega (
      arith,
      flag-lt bf i f,
      lookup-All (λ b. length b ≤ s.piece_count) peer s.peer_bitfields bf w.bitfields e,
    ) in
    All-get_elem? (λ a. ltb 0 a.peer_count ≡ true → P a) (get_availability s) i _
      (All-of_keep P (λ a. ltb 0 a.peer_count) (get_availability s)
        (All-sort_by (λ a. a.peer_count) P _ h))
      (ground (arith, get_elem?-get_availability s i)) (ground arith)

pick_from-eq-some :
    (s : PieceScheduler) (bf : List Bool) (fl : List ℕ) (i : ℕ)
    → pick_from s bf fl ≡ some i
    → (a : PieceAvailability) × (find
          (wanted s.local_have fl bf)
          (rarest_first (get_availability s))
        ≡ some a)
      × (a.piece_index ≡ i)
unfolding pick_from
pick_from-eq-some s bf fl i e = ground arith

counted :
    (s : PieceScheduler)
    → All
        (λ a. a.peer_count ≡ holders s.peer_bitfields a.piece_index)
        (rarest_first (get_availability s))
unfolding rarest_first
counted s =
    sort_by-All (λ a. a.peer_count) _ _
      (All-keep _ (λ a. ltb 0 a.peer_count) (get_availability s)
        (All-of_get_elem? _ (get_availability s)
          (λ i a e. ground (arith, get_elem?-get_availability s i))))

pick_from-rarest :
    (s : PieceScheduler) (peer : Str) (bf : List Bool) (fl : List ℕ) (i : ℕ)
    → IsWf s
    → lookup peer s.peer_bitfields ≡ some bf
    → pick_from s bf fl ≡ some i
    → IsEligible s bf fl i
      × ((j : ℕ) → IsEligible s bf fl j → holders s.peer_bitfields i ≤ holders s.peer_bitfields j)
unfolding rarest_first
pick_from-rarest s peer bf fl i w e h =
    let (a, found, same) = pick_from-eq-some s bf fl i h in
    let count : a.peer_count ≡ holders s.peer_bitfields a.piece_index =
      find-All _ (wanted s.local_have fl bf) (rarest_first (get_availability s)) a (counted s)
        found in
    rw (← same) (
      (wanted_iff s bf fl a).0 (find_holds _ (rarest_first (get_availability s)) a found),
      λ j el. rw (← count) (
          candidates (λ x. wanted s.local_have fl bf x ≡ true → a.peer_count ≤ x.peer_count) s peer
            bf w e
            (find-least (λ x. x.peer_count) (wanted s.local_have fl bf) _ a (sort_by-IsSortedBy _ _)
              found)
            j el.2 ((wanted_iff s bf fl _).1 el)),
    )

pick_from-eq-none :
    (s : PieceScheduler) (bf : List Bool) (fl : List ℕ)
    → pick_from s bf fl ≡ none
    → find (wanted s.local_have fl bf) (rarest_first (get_availability s)) ≡ none
unfolding pick_from
pick_from-eq-none s bf fl e = ground arith

pick_from-missed :
    (s : PieceScheduler) (peer : Str) (bf : List Bool) (fl : List ℕ) (i : ℕ)
    → IsWf s
    → lookup peer s.peer_bitfields ≡ some bf
    → pick_from s bf fl ≡ none
    → ¬ IsEligible s bf fl i
pick_from-missed s peer bf fl i w e h el =
    let unwanted =
      candidates (λ x. wanted s.local_have fl bf x ≡ false) s peer bf w e
        (find-eq-none _ (rarest_first (get_availability s)) (pick_from-eq-none s bf fl h)) i el.2 in
    let chosen =
      (wanted_iff s bf fl (record { piece_index = i; peer_count = holders s.peer_bitfields i })).1
        el in
    cc

-- A bitfield decides between the early return and the search.
pick_cases :
    (s : PieceScheduler) (peer : Str) (bf : List Bool) (fl : List ℕ)
    → lookup peer s.peer_bitfields ≡ some bf
    → ((bf ≡ []) × (pick_next_piece_for_peer s peer fl ≡ none))
      ⊎ (pick_next_piece_for_peer s peer fl ≡ pick_from s bf fl)
unfolding pick_next_piece_for_peer
pick_cases s peer [] fl e = inl (refl, rw (e, offer))
pick_cases s peer (b ∷ bs) fl e = inr (rw (e, offer))

-- A piece that is picked is eligible, and no eligible piece is held by fewer peers.
pub pick_next_piece_for_peer-rarest :
    (s : PieceScheduler) (peer : Str) (bitfield : List Bool) (in_flight : List ℕ) (i : ℕ)
    → IsWf s
    → lookup peer s.peer_bitfields ≡ some bitfield
    → pick_next_piece_for_peer s peer in_flight ≡ some i
    → IsEligible s bitfield in_flight i
      × ((j : ℕ)
          → IsEligible s bitfield in_flight j
          → holders s.peer_bitfields i ≤ holders s.peer_bitfields j)
pick_next_piece_for_peer-rarest s peer bf fl i w e h = elim (pick_cases s peer bf fl e) [
  | inl (_, nothing) ↦ absurd (cc)
  | inr search ↦ pick_from-rarest s peer bf fl i w e (cc)
]

-- For a peer with a bitfield nothing is picked exactly when no piece is eligible.
pick_next_piece_for_peer-eq-none_iff :
    (s : PieceScheduler) (peer : Str) (bitfield : List Bool) (in_flight : List ℕ)
    → IsWf s
    → lookup peer s.peer_bitfields ≡ some bitfield
    → (pick_next_piece_for_peer s peer in_flight ≡ none)
      ↔ ((i : ℕ) → ¬ IsEligible s bitfield in_flight i)
pick_next_piece_for_peer-eq-none_iff s peer bf fl w e = (
  λ h i el. elim (pick_cases s peer bf fl e) [
    | inl (empty, _) ↦ absurd (omega (arith, flag-lt bf i el.2, ap length empty))
    | inr search ↦ pick_from-missed s peer bf fl i w e (cc) el
  ],
  λ h. elim (Option-cases (pick_next_piece_for_peer s peer fl)) [
    | inl nothing ↦ nothing
    | inr (i, picked) ↦ absurd (h i (pick_next_piece_for_peer-rarest s peer bf fl i w e picked).0)
  ],
)

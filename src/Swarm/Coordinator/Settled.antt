-- ===== src/Swarm/Coordinator/Settled.antt =====
-- Every promise is settled once, and has an armed timer until then.
use cordia.Base.{
  All, Bool-cases, Dict, HasDistinctKeys, List, Option, Str, [], arith, eqb, eqb_iff, if◌then◌else◌,
  inl, inr, lookup, lookup-put, lookup-remove, ltb, nat_eq, none, put-HasDistinctKeys, refl, remove,
  some, str_beq_iff, str_eq, trim, truthy, ℕ, ◌&&◌, ◌+◌, ◌∷◌, ◌≡◌,
}
use cordia.Swarm.Coordinator.{
  Settlement, resolved, superseded, timed_out, stopped, SwarmCoordinator, new_coordinator, key,
  settle, settle_pending, ask, request_peers, on_peer_list, fire, on_timeout, stop_each, stop,
  CoordinatorEvent, asked, answered, fired, shut, coordinate, coordinate_all,
}

-- How often a promise was settled.
abbrev pub times : ℕ → List (ℕ × Settlement) → ℕ
times n [] = 0
times n ((m, how) ∷ settled) = (if eqb m n then 1 else 0) + times n settled

abbrev pub armed : Option Str → ℕ
armed none = 0
armed (some k) = 1

-- A promise that was made is settled once, or has an armed timer and is not settled; timers and
-- pending requests belong together.
pub record IsOrderly (s : SwarmCoordinator) : Type 0 where
  pub linked : (k : Str) (n : ℕ) → lookup k s.pending ≡ some n → lookup n s.timers ≡ some k
  pub armed_for : (n : ℕ) (k : Str) → lookup n s.timers ≡ some k → lookup k s.pending ≡ some n
  pub once :
      (n : ℕ) → times n s.settled + armed (lookup n s.timers) ≡ (if ltb n s.next then 1 else 0)
  pub distinct_keys : HasDistinctKeys s.pending

remove-HasDistinctKeys :
    (k : Str) (m : Dict Str ℕ) → HasDistinctKeys m → HasDistinctKeys (remove k m)
unfolding remove
remove-HasDistinctKeys k [] h = tt
remove-HasDistinctKeys k ((j, w) ∷ m) h =
    ground (arith, remove-HasDistinctKeys k m h.1, lookup-remove k j m, h.0)

settle-IsOrderly :
    (k : Str) (n : ℕ) (how : Settlement) (s : SwarmCoordinator)
    → lookup k s.pending ≡ some n
    → IsOrderly s
    → IsOrderly (settle k n how s)
unfolding settle
settle-IsOrderly k n how s e w =
    let timer : lookup n s.timers ≡ some k = w.linked k n e in
    record {
      linked = λ j m h. ground (
        arith,
        lookup-remove k j s.pending,
        lookup-remove n m s.timers,
        w.linked j m,
        timer,
        str_beq_iff k j,
        eqb_iff n m,
        h,
      );
      armed_for = λ m j h. ground (
        arith,
        lookup-remove k j s.pending,
        lookup-remove n m s.timers,
        w.armed_for m j,
        e,
        str_beq_iff k j,
        eqb_iff n m,
        h,
      );
      once = λ m. ground (arith, w.once m, lookup-remove n m s.timers, timer, eqb_iff n m);
      distinct_keys = remove-HasDistinctKeys k s.pending w.distinct_keys;
    }

settle_pending-IsOrderly :
    (k : Str) (o : Option ℕ) (how : Settlement) (s : SwarmCoordinator)
    → lookup k s.pending ≡ o
    → IsOrderly s
    → IsOrderly (settle_pending k o how s)
unfolding settle_pending
settle_pending-IsOrderly k none how s e w = w
settle_pending-IsOrderly k (some n) how s e w = settle-IsOrderly k n how s e w

settle_pending-absent :
    (k : Str) (o : Option ℕ) (how : Settlement) (s : SwarmCoordinator)
    → lookup k s.pending ≡ o
    → lookup k (settle_pending k o how s).pending ≡ none
unfolding settle_pending settle
settle_pending-absent k none how s e = e
settle_pending-absent k (some n) how s e =
    ground (arith, lookup-remove k k s.pending, str_beq_iff k k)

ask-IsOrderly :
    (k : Str) (s : SwarmCoordinator) → lookup k s.pending ≡ none → IsOrderly s → IsOrderly (ask k s)
unfolding ask
ask-IsOrderly k s e w =
    let idle : lookup s.next s.timers ≡ none = ground (arith, w.once s.next) in
    record {
      linked = λ j m h. ground (
        arith,
        lookup-put k j s.next s.pending,
        lookup-put s.next m k s.timers,
        w.linked j m,
        idle,
        str_beq_iff k j,
        eqb_iff s.next m,
        h,
      );
      armed_for = λ m j h. ground (
        arith,
        lookup-put k j s.next s.pending,
        lookup-put s.next m k s.timers,
        w.armed_for m j,
        e,
        str_beq_iff k j,
        eqb_iff s.next m,
        h,
      );
      once = λ m. ground (arith, w.once m, lookup-put s.next m k s.timers, idle, eqb_iff s.next m);
      distinct_keys = put-HasDistinctKeys k s.next s.pending w.distinct_keys;
    }

fire-IsOrderly :
    (n : ℕ) (o : Option Str) (s : SwarmCoordinator)
    → lookup n s.timers ≡ o
    → IsOrderly s
    → IsOrderly (fire n o s)
unfolding fire
fire-IsOrderly n none s e w = w
fire-IsOrderly n (some k) s e w = settle-IsOrderly k n timed_out s (w.armed_for n k e) w

-- Entries that another map has as well.
abbrev AreIn : Dict Str ℕ → Dict Str ℕ → Type 0
AreIn m ps = All (λ b. lookup b.0 m ≡ some b.1) ps

AreIn-cons :
    (k : Str) (n : ℕ) (m ps : Dict Str ℕ) → lookup k ps ≡ none → AreIn m ps → AreIn ((k, n) ∷ m) ps
unfolding lookup
AreIn-cons k n m [] e h = tt
AreIn-cons k n m ((j, v) ∷ ps) e h =
    ground (arith, AreIn-cons k n m ps, str_beq_iff j k, str_beq_iff k j, h.0, h.1)

AreIn-remove :
    (k : Str) (m ps : Dict Str ℕ) → lookup k ps ≡ none → AreIn m ps → AreIn (remove k m) ps
unfolding lookup
AreIn-remove k m [] e h = tt
AreIn-remove k m ((j, v) ∷ ps) e h =
    ground
      (arith, AreIn-remove k m ps, lookup-remove k j m, str_beq_iff j k, str_beq_iff k j, h.0, h.1)

AreIn-self : (m : Dict Str ℕ) → HasDistinctKeys m → AreIn m m
unfolding lookup
AreIn-self [] h = tt
AreIn-self ((k, n) ∷ m) h =
    (ground (arith, str_beq_iff k k), AreIn-cons k n m m h.0 (AreIn-self m h.1))

stop_each-IsOrderly :
    (ps : Dict Str ℕ) (s : SwarmCoordinator)
    → HasDistinctKeys ps
    → AreIn s.pending ps
    → IsOrderly s
    → IsOrderly (stop_each ps s)
unfolding stop_each settle
stop_each-IsOrderly [] s d h w = w
stop_each-IsOrderly ((k, n) ∷ ps) s d h w =
    stop_each-IsOrderly ps (settle k n stopped s) d.1 (AreIn-remove k s.pending ps d.0 h.1)
      (settle-IsOrderly k n stopped s h.0 w)

coordinate-IsOrderly :
    (e : CoordinatorEvent) (s : SwarmCoordinator) → IsOrderly s → IsOrderly (coordinate e s)
unfolding coordinate request_peers on_peer_list on_timeout stop
coordinate-IsOrderly (asked pk sha) s w =
    let k = key pk sha in
    ask-IsOrderly k (settle_pending k (lookup k s.pending) superseded s)
      (settle_pending-absent k (lookup k s.pending) superseded s refl)
      (settle_pending-IsOrderly k (lookup k s.pending) superseded s refl w)
coordinate-IsOrderly (answered pk sha peers) s w =
    elim (Bool-cases (truthy (trim pk) && truthy (trim sha))) [
      | inl e ↦
          rw e (settle_pending-IsOrderly (key (trim pk) (trim sha)) _ (resolved peers) s refl w)
      | inr e ↦ rw e w
    ]
coordinate-IsOrderly (fired n) s w = fire-IsOrderly n (lookup n s.timers) s refl w
coordinate-IsOrderly shut s w =
    stop_each-IsOrderly s.pending s w.distinct_keys (AreIn-self s.pending w.distinct_keys) w

coordinate_all-IsOrderly_from :
    (es : List CoordinatorEvent) (s : SwarmCoordinator)
    → IsOrderly s
    → IsOrderly (coordinate_all es s)
unfolding coordinate_all
coordinate_all-IsOrderly_from [] s w = w
coordinate_all-IsOrderly_from (e ∷ es) s w =
    coordinate_all-IsOrderly_from es (coordinate e s) (coordinate-IsOrderly e s w)

-- Whatever happens in whatever order: each promise that was made is settled once, or has an armed
-- timer and is not settled; each pending request has its timer, and each timer its request.
pub coordinate_all-IsOrderly :
    (es : List CoordinatorEvent) → IsOrderly (coordinate_all es new_coordinator)
unfolding new_coordinator lookup
coordinate_all-IsOrderly es = coordinate_all-IsOrderly_from es new_coordinator (record {
  linked = λ k n h. absurd (ground (arith, h));
  armed_for = λ n k h. absurd (ground (arith, h));
  once = λ n. ground arith;
  distinct_keys = tt;
})

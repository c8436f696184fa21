-- ===== src/People/Friends/Tied.antt =====
-- Lists of ids, and timers that are tied to their users.
use cordia.Base.{
  Dict, List, Option, Str, arith, contains, contains-append_one, eqb_iff, lookup, lookup-put,
  lookup-remove, nat_eq, none, some, str_beq_iff, str_eq, ℕ, ◌<◌, ◌==◌, ◌||◌, ◌≡◌, ◌≢◌,
}
use cordia.People.Friends.{Friends, including}
use cordia.People.Friends.Actions.{disarm, clear_pending, expire_of}

pub contains-including :
    (u v : Str) (ids : List Str) → contains (including v ids) u ≡ (contains ids u || v == u)
contains-including u v ids = ground (arith, contains-append_one u v ids, str_beq_iff v u)

-- Each armed timer is the one that `timeouts` has for its user.
abbrev pub IsTied : Friends → Type 0
IsTied s =
    (timer : ℕ) (v : Str)
    → lookup timer s.armed ≡ some v
    → (lookup v s.timeouts ≡ some timer) × (timer < s.next_timer)

disarmed :
    (o : Option ℕ) (timer : ℕ) (v : Str) (armed : Dict ℕ Str)
    → lookup timer (disarm o armed) ≡ some v
    → (lookup timer armed ≡ some v) × (o ≢ some timer)
disarmed none timer v armed h = ground arith
disarmed (some k) timer v armed h = ground (arith, lookup-remove k timer armed, eqb_iff k timer)

pub clear_pending-IsTied : (v : Str) (s : Friends) → IsTied s → IsTied (clear_pending v s)
unfolding clear_pending
clear_pending-IsTied v s h timer w e = ground (
  arith,
  lookup-put s.next_timer timer v (disarm (lookup v s.timeouts) s.armed),
  eqb_iff s.next_timer timer,
  lookup-put v w s.next_timer s.timeouts,
  str_beq_iff v w,
  disarmed (lookup v s.timeouts) timer w s.armed,
  h timer w,
)

pub expire_of-IsTied :
    (timer : ℕ) (o : Option Str) (s : Friends)
    → lookup timer s.armed ≡ o
    → IsTied s
    → IsTied (expire_of timer o s)
unfolding expire_of
expire_of-IsTied timer none s e h timer' w e' = h timer' w e'
expire_of-IsTied timer (some v) s e h timer' w e' = ground (
  arith,
  lookup-remove timer timer' s.armed,
  eqb_iff timer timer',
  lookup-remove v w s.timeouts,
  str_beq_iff v w,
  h timer v,
  h timer' w,
)

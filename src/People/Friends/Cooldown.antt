-- ===== src/People/Friends/Cooldown.antt =====
-- Mutual checks of one friend keep their distance.
use cordia.Base.{
  Bool, Dict, List, Str, [], arith, false, lookup, lookup-put, nat_eq, some, str_eq, true, ℕ, ◌+◌,
  ◌∷◌, ◌≡◌, ◌≤◌,
}
use cordia.People.Friends.{Friends}
use cordia.People.Friends.Actions.{check_friend, check_each, send_mutual_checks, cooldown_ms}

-- Of the checks that were sent, the last one first: those of one user are a cooldown apart.
abbrev pub IsSpaced : Dict Str ℕ → Type 0
IsSpaced [] = Unit
IsSpaced ((id, at) ∷ checks) =
    ((before : ℕ) → lookup id checks ≡ some before → before + cooldown_ms ≤ at) × IsSpaced checks

-- The table has the last check of each user.
abbrev pub IsLogged : Friends → Type 0
IsLogged s = (id : Str) → lookup id s.last_mutual_check ≡ lookup id s.checks

check_friend-IsLogged :
    (force : Bool) (now : ℕ) (id : Str) (s : Friends)
    → IsLogged s
    → IsLogged (check_friend force now id s)
unfolding check_friend lookup
check_friend-IsLogged force now id s h j =
    ground (arith, h j, lookup-put id j now s.last_mutual_check)

check_friend-IsSpaced :
    (now : ℕ) (id : Str) (s : Friends)
    → IsLogged s
    → IsSpaced s.checks
    → IsSpaced (check_friend false now id s).checks
unfolding check_friend
check_friend-IsSpaced now id s log h = ground (arith, log id)

check_each-IsSpaced :
    (now : ℕ) (ids : List Str) (s : Friends)
    → IsLogged s
    → IsSpaced s.checks
    → IsSpaced (check_each false now ids s).checks × IsLogged (check_each false now ids s)
unfolding check_each
check_each-IsSpaced now [] s log h = (h, log)
check_each-IsSpaced now (id ∷ ids) s log h =
    check_each-IsSpaced now ids (check_friend false now id s)
      (check_friend-IsLogged false now id s log) (check_friend-IsSpaced now id s log h)

-- A round of checks that is not forced, at whatever time, keeps the checks of each user a cooldown
-- apart, also if a friend stands in the list twice, where the table had the last check of each user;
-- and then it has it again.
pub send_mutual_checks-IsSpaced :
    (connected : Bool) (now : ℕ) (s : Friends)
    → IsLogged s
    → IsSpaced s.checks
    → IsSpaced (send_mutual_checks connected false now s).checks
      × IsLogged (send_mutual_checks connected false now s)
unfolding send_mutual_checks
send_mutual_checks-IsSpaced false now s log h = (h, log)
send_mutual_checks-IsSpaced true now s log h = check_each-IsSpaced now s.friends s log h

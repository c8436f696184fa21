-- ===== src/Connection/Churn.antt =====
-- A message that is sent while a socket is still connecting starts a chain of reconnects.
use cordia.Connection.Takeover.{IsChurning, round, takes_over}
use cordia.Base.{
  Str, [], arith, contains, false, lookup, nat_eq, refl, some, str_eq, subst, true, ℕ, ◌++◌, ◌+◌,
  ◌<◌, ◌∙◌, ◌∷◌, ◌≡◌, ◌≤◌,
}
use cordia.Connection.{
  Connection, connecting, closed, close_socket, close_current, clear_timer, new_socket, connect_ws,
  cut_outbound, send_or_queue, send_each, send_out, on_timer, sends, opens, closes, registers,
  connection_step, connection_run,
}

connected_fields :
    (now w : ℕ) (s : Connection)
    → s.current ≡ some w
    → s.last_connect_start_at + 500 ≤ now
    → let t = connect_ws now s in
      (t.current ≡ some s.next_socket)
      × (t.next_socket ≡ s.next_socket + 1)
      × (t.cancelled ≡ s.cancelled)
      × (t.next_timer ≡ s.next_timer)
unfolding connect_ws new_socket close_current close_socket
connected_fields now w s e late = ground (arith, e, late)

on_timer-fires :
    (now timer : ℕ) (s : Connection)
    → contains s.armed timer ≡ true
    → s.cancelled ≡ false
    → on_timer now timer s ≡ connect_ws now (record s { armed = clear_timer (some timer) s.armed })
unfolding on_timer
on_timer-fires now timer s is_armed on = rw is_armed (rw on refl)

fired_fields :
    (now w timer : ℕ) (s : Connection)
    → IsChurning w timer s
    → s.last_connect_start_at + 500 ≤ now
    → let t = on_timer now timer s in
      (t.current ≡ some s.next_socket)
      × (t.next_socket ≡ s.next_socket + 1)
      × (t.cancelled ≡ false)
      × (t.next_timer ≡ s.next_timer)
fired_fields now w timer s h late =
    let fired = record s { armed = clear_timer (some timer) s.armed } in
    let (used, next, still, timers) = connected_fields now w fired h.in_use late in
    rw (on_timer-fires now timer s h.is_armed h.goes_on) (used, next, still ∙ h.goes_on, timers)

-- While a reconnect timer runs beside an open socket, the timer closes that socket for a new one, and
-- its close sets the next timer: after the round the new socket is open with a timer beside it, and
-- the one that worked is closed.
pub round-IsChurning :
    (now w timer : ℕ) (s : Connection)
    → IsChurning w timer s
    → s.last_connect_start_at + 500 ≤ now
    → let t = connection_run (round now timer w s.next_socket) s in
      IsChurning s.next_socket s.next_timer t × (lookup w t.sockets ≡ some closed)
unfolding connection_run connection_step
round-IsChurning now w timer s h late =
    let t = on_timer now timer s in
    let (used, next, still, timers) = fired_fields now w timer s h late in
    let (churns, gone) =
      takes_over w s.next_socket t used (omega (arith, next)) still
        (λ e. omega (arith, h.older, e)) in
    (
      subst
          (λ k.
            IsChurning s.next_socket k (
              connection_run (closes w ∷ opens s.next_socket ∷ registers true s.next_socket ∷ [])
                t))
          timers churns,
      gone,
    )

send_out-connects :
    (now v : ℕ) (p : Str) (s : Connection)
    → s.listening ≡ v ∷ []
    → lookup v s.sockets ≡ some connecting
    → s.cancelled ≡ false
    → send_out now p s
      ≡ connect_ws now (record s { outbound = cut_outbound (s.outbound ++ p ∷ []) })
unfolding send_out send_each send_or_queue
send_out-connects now v p s listens busy on = rw listens (rw busy (rw on refl))

sent_fields :
    (now v : ℕ) (p : Str) (s : Connection)
    → s.current ≡ some v
    → s.listening ≡ v ∷ []
    → lookup v s.sockets ≡ some connecting
    → s.cancelled ≡ false
    → s.last_connect_start_at + 500 ≤ now
    → let t = send_out now p s in
      (t.current ≡ some s.next_socket)
      × (t.next_socket ≡ s.next_socket + 1)
      × (t.cancelled ≡ false)
      × (t.next_timer ≡ s.next_timer)
sent_fields now v p s use_v listens busy on late =
    let queued = record s { outbound = cut_outbound (s.outbound ++ p ∷ []) } in
    let (used, next, still, timers) = connected_fields now v queued use_v late in
    rw (send_out-connects now v p s listens busy on) (used, next, still ∙ on, timers)

-- A message that is sent while the socket is still connecting, half a second or more after it was
-- opened, gives the socket up for a new one; when the old one closes and the new one opens, a
-- reconnect timer runs beside the open socket.
pub send_out-IsChurning :
    (now v : ℕ) (p : Str) (s : Connection)
    → s.current ≡ some v
    → s.listening ≡ v ∷ []
    → lookup v s.sockets ≡ some connecting
    → s.cancelled ≡ false
    → v < s.next_socket
    → s.last_connect_start_at + 500 ≤ now
    → IsChurning s.next_socket s.next_timer (
        connection_run
          (sends now p ∷ closes v ∷ opens s.next_socket ∷ registers true s.next_socket ∷ [])
          s)
unfolding connection_run connection_step
send_out-IsChurning now v p s use_v listens busy on older late =
    let t = send_out now p s in
    let (used, next, still, timers) = sent_fields now v p s use_v listens busy on late in
    let (churns, gone) =
      takes_over v s.next_socket t used (omega (arith, next)) still
        (λ e. omega (arith, older, e)) in
    subst
      (λ k.
        IsChurning s.next_socket k
          (connection_run (closes v ∷ opens s.next_socket ∷ registers true s.next_socket ∷ []) t))
      timers churns

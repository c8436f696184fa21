-- ===== src/Connection/Tests.antt =====
-- The connection at an input.
use cordia.Base.{[], arith, false, lookup, nat_eq, none, refl, some, str_eq, true, units, ◌∷◌, ◌≡◌}
use cordia.Connection.{
  Connection, connecting, opened, closed, on_close, connection_run, hears, sends, closes, opens,
  registers, reconnect_delay, connect_ws, new_socket, close_current,
}
use cordia.Connection.Takeover.{IsChurning, round}
use cordia.Connection.Churn.{round-IsChurning, send_out-IsChurning}
use cordia.Connection.Outbound.{IsDeaf, connection_run-IsDeaf}

abbrev no_connection : Connection
no_connection = record {
  sockets = [];
  current = none;
  next_socket = 0;
  listening = [];
  outbound = [];
  sent = [];
  last_connect_start_at = 0;
  reconnect_attempt = 0;
  reconnect_timer = none;
  armed = [];
  next_timer = 0;
  cancelled = false;
  heartbeat = none;
  watchdog = none;
  last_pong_at = 0;
  last_message_at = 0;
}

-- One socket, which is connecting since 1000.
abbrev busy : Connection
busy = record no_connection {
  sockets = (0, connecting) ∷ [];
  current = some 0;
  next_socket = 1;
  listening = 0 ∷ [];
  last_connect_start_at = 1000;
}

abbrev impatient : Connection
impatient = record no_connection {
  sockets = (0, closed) ∷ (1, opened) ∷ [];
  current = some 1;
  next_socket = 2;
  listening = 1 ∷ [];
  last_connect_start_at = 1600;
  reconnect_timer = some 0;
  armed = 0 ∷ [];
  next_timer = 1;
}

-- The first connection of a session is the socket 0, which listens.
connects : (connect_ws 1000 no_connection).listening ≡ 0 ∷ []
unfolding connect_ws new_socket close_current
connects = refl

second_delay : reconnect_delay 1 17 ≡ 2017
unfolding reconnect_delay
second_delay = refl

impatient-IsChurning : IsChurning 1 0 impatient
unfolding lookup
impatient-IsChurning = record {
  in_use = refl;
  is_up = refl;
  older = omega arith;
  set_timer = refl;
  is_armed = refl;
  goes_on = refl;
}

round-IsChurning_example :
    IsChurning 2 1 (connection_run (round 2700 0 1 2) impatient)
    × (lookup 1 (connection_run (round 2700 0 1 2) impatient).sockets ≡ some closed)
round-IsChurning_example = round-IsChurning 2700 1 0 impatient impatient-IsChurning (omega arith)

send_out-IsChurning_example :
    IsChurning 1 0
      (connection_run (sends 1600 (units "hi") ∷ closes 0 ∷ opens 1 ∷ registers true 1 ∷ []) busy)
unfolding lookup
send_out-IsChurning_example =
    send_out-IsChurning 1600 0 (units "hi") busy refl refl refl refl (omega arith) (omega arith)

connection_run-IsDeaf_example : IsDeaf impatient (
    connection_run
      (sends 3000 (units "hi") ∷ hears 3001 true ∷ closes 0 ∷ sends 3002 (units "ho") ∷ [])
      (on_close 1 impatient))
connection_run-IsDeaf_example =
    connection_run-IsDeaf 1
      (sends 3000 (units "hi") ∷ hears 3001 true ∷ closes 0 ∷ sends 3002 (units "ho") ∷ [])
      impatient refl (tt, (tt, (tt, (tt, tt))))

-- ===== src/Connection.antt =====
-- The connection to the beacon of src/components/ServerSyncBootstrap.tsx: `connectWs` with the
-- handlers of its WebSocket, the queue of outbound messages and the timers, for one session. A
-- WebSocket is a number; what the browser does with it is an event. What is sent when a socket opens,
-- before the queue (registrations, presence and profile), and what an incoming message tells other
-- parts are left out.
pub mod Outbound
pub mod Takeover
pub mod Churn
mod Tests
use Prim.Native.Nat.{◌^◌}
use cordia.Base.{
  Bool, Dict, List, Option, Str, [], contains, drop, false, if◌then◌else◌, keep, length, lookup,
  ltb, max, min, nat_eq, none, not, put, some, str_eq, true, ℕ, ◌&&◌, ◌*◌, ◌++◌, ◌+◌, ◌-◌, ◌==◌,
  ◌||◌, ◌∷◌,
}

pub data ReadyState : Type 0 where
  connecting opened closing closed : ReadyState

-- `current` is wsRef, `listening` the sockets whose listeners are registered, the oldest first,
-- `outbound` pendingOutboundRef, `reconnect_timer` reconnectTimerRef and `armed` the reconnect timers
-- that may fire. `heartbeat` and `watchdog` hold the socket of the interval that runs. `sent` is what
-- went out and through which socket, the last one first.
pub record Connection : Type 0 where
  pub sockets : Dict ℕ ReadyState
  pub current : Option ℕ
  pub next_socket : ℕ
  pub listening : List ℕ
  pub outbound : List Str
  pub sent : List (ℕ × Str)
  pub last_connect_start_at : ℕ
  pub reconnect_attempt : ℕ
  pub reconnect_timer : Option ℕ
  pub armed : List ℕ
  pub next_timer : ℕ
  pub heartbeat : Option ℕ
  pub watchdog : Option ℕ
  pub last_pong_at : ℕ
  pub last_message_at : ℕ
  pub cancelled : Bool

abbrev pub max_outbound : ℕ
max_outbound = 500

-- ws.close(): the close event comes later; a socket that is closed stays so.
abbrev closed_later : Option ReadyState → ReadyState
closed_later (some closed) = closed
closed_later _ = closing

unfoldable pub close_socket : ℕ → Connection → Connection
close_socket w s = record s { sockets = put w (closed_later (lookup w s.sockets)) s.sockets }

unfoldable pub close_current : Option ℕ → Connection → Connection
close_current none s = s
close_current (some w) s = record (close_socket w s) { current = none }

-- clearTimeout
abbrev pub clear_timer : Option ℕ → List ℕ → List ℕ
clear_timer none armed = armed
clear_timer (some timer) armed = keep (λ t. not (t == timer)) armed

unfoldable pub new_socket : ℕ → Connection → Connection
new_socket now s = record s {
  sockets = put s.next_socket connecting s.sockets;
  current = some s.next_socket;
  next_socket = s.next_socket + 1;
  listening = s.listening ++ s.next_socket ∷ [];
  last_pong_at = now;
  last_message_at = now;
  reconnect_timer = none;
  armed = clear_timer s.reconnect_timer s.armed;
  heartbeat = none;
  watchdog = none;
}

-- connectWs
unfoldable pub connect_ws : ℕ → Connection → Connection
connect_ws now s =
    if ltb now (s.last_connect_start_at + 500)
    then s
    else new_socket now (close_current s.current (record s { last_connect_start_at = now }))

abbrev pub is_open : Option ReadyState → Bool
is_open (some opened) = true
is_open _ = false

-- list.slice(-500)
abbrev last_ones : ℕ → List Str → List Str
last_ones n list = drop (length list - n) list

abbrev pub cut_outbound : List Str → List Str
cut_outbound list = if ltb max_outbound (length list) then last_ones max_outbound list else list

-- sendOrQueue of one socket.
unfoldable pub send_or_queue : ℕ → Str → ℕ → Connection → Connection
send_or_queue now payload w s =
    if is_open (lookup w s.sockets)
    then record s { sent = (w, payload) ∷ s.sent }
    else let queued = record s { outbound = cut_outbound (s.outbound ++ payload ∷ []) } in
      if s.cancelled then queued else connect_ws now queued

-- An event for the beacon goes to the listeners that are registered when it comes.
unfoldable pub send_each : ℕ → Str → List ℕ → Connection → Connection
send_each now payload [] s = s
send_each now payload (w ∷ ws) s = send_each now payload ws (send_or_queue now payload w s)

unfoldable pub send_out : ℕ → Str → Connection → Connection
send_out now payload s = send_each now payload s.listening s

-- The flush: what is not sent because the socket is no longer open is gone.
unfoldable pub flush_each : ℕ → List Str → Connection → Connection
flush_each w [] s = s
flush_each w (payload ∷ queued) s =
    if is_open (lookup w s.sockets)
    then flush_each w queued (record s { sent = (w, payload) ∷ s.sent })
    else s

unfoldable pub flush : ℕ → Connection → Connection
flush w s = flush_each w s.outbound (record s { outbound = [] })

-- onopen: at first, and once its awaits are over; `ok` tells whether they throw nothing.
unfoldable pub on_open : ℕ → Connection → Connection
on_open w s = record s { sockets = put w opened s.sockets; reconnect_attempt = 0 }

unfoldable pub on_registered : Bool → ℕ → Connection → Connection
on_registered ok w s =
    let flushed = if ok then flush w s else s in
    record flushed { heartbeat = some w; watchdog = some w }

-- onclose, with cleanupListeners.
unfoldable pub on_close : ℕ → Connection → Connection
on_close w s =
    let gone = record s {
      sockets = put w closed s.sockets;
      listening = keep (λ v. not (v == w)) s.listening;
      heartbeat = none;
      watchdog = none;
    } in
    if s.cancelled then gone else record gone {
      reconnect_attempt = s.reconnect_attempt + 1;
      reconnect_timer = some s.next_timer;
      armed = s.armed ++ s.next_timer ∷ [];
      next_timer = s.next_timer + 1;
    }

abbrev may_close : Option ReadyState → Bool
may_close (some connecting) = true
may_close (some opened) = true
may_close _ = false

-- onerror, with cleanupListeners.
unfoldable pub on_error : ℕ → Connection → Connection
on_error w s =
    let deaf = record s { listening = keep (λ v. not (v == w)) s.listening } in
    if may_close (lookup w s.sockets) then close_socket w deaf else deaf

unfoldable pub on_timer : ℕ → ℕ → Connection → Connection
on_timer now timer s =
    if contains s.armed timer
    then (let fired = record s { armed = clear_timer (some timer) s.armed } in
        if s.cancelled then fired else connect_ws now fired)
    else s

-- A tick of the watchdog of the socket for which it was started.
unfoldable pub watch : ℕ → Option ℕ → Connection → Connection
watch now none s = s
watch now (some w) s =
    if not s.cancelled && (ltb (s.last_pong_at + 70000) now || ltb (s.last_message_at + 120000) now)
    then close_socket w s
    else s

unfoldable pub on_message : ℕ → Bool → Connection → Connection
on_message now is_pong s = record s {
  last_message_at = now;
  last_pong_at = if is_pong then now else s.last_pong_at;
}

-- The effect's cleanup.
unfoldable pub stop_connection : Connection → Connection
stop_connection s = close_current s.current (record s {
  cancelled = true;
  outbound = [];
  reconnect_timer = none;
  armed = clear_timer s.reconnect_timer s.armed;
  heartbeat = none;
  watchdog = none;
})

-- reconnectTimerRef's delay after the attempts so far, with a jitter of less than 250.
unfoldable pub reconnect_delay : ℕ → ℕ → ℕ
reconnect_delay attempt jitter = max 1000 (min 30000 (1000 * 2 ^ attempt) + jitter)

pub data ConnectionEvent : Type 0 where
  sends : ℕ → Str → ConnectionEvent
  opens closes fails : ℕ → ConnectionEvent
  registers : Bool → ℕ → ConnectionEvent
  fires : ℕ → ℕ → ConnectionEvent
  watches : ℕ → ConnectionEvent
  hears : ℕ → Bool → ConnectionEvent
  stops : ConnectionEvent

unfoldable pub connection_step : ConnectionEvent → Connection → Connection
connection_step (sends now payload) s = send_out now payload s
connection_step (opens w) s = on_open w s
connection_step (closes w) s = on_close w s
connection_step (fails w) s = on_error w s
connection_step (registers ok w) s = on_registered ok w s
connection_step (fires now timer) s = on_timer now timer s
connection_step (watches now) s = watch now s.watchdog s
connection_step (hears now is_pong) s = on_message now is_pong s
connection_step stops s = stop_connection s

unfoldable pub connection_run : List ConnectionEvent → Connection → Connection
connection_run [] s = s
connection_run (e ∷ es) s = connection_run es (connection_step e s)

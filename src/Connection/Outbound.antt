-- ===== src/Connection/Outbound.antt =====
-- The queue of outbound messages: what leaves it, and when nothing enters it.
use cordia.Base.{
  All, List, Option, Str, [], arith, eqb_iff, length, length-drop, lookup, nat_eq, none, refl, some,
  str_eq, true, ℕ, ◌++◌, ◌-◌, ◌∷◌, ◌≡◌, ◌≤◌,
}
use cordia.Connection.{
  Connection, opened, connect_ws, cut_outbound, send_or_queue, send_each, send_out, flush_each,
  flush, on_close, on_registered, max_outbound, close_current, close_socket, new_socket,
  clear_timer, on_error, on_open, on_timer, watch, on_message, stop_connection, connection_step,
  connection_run, ConnectionEvent, sends, opens, closes, fails, registers, fires, watches, hears,
  stops,
}

-- What a socket sends, the last message first.
unfoldable pub sent_through : ℕ → List Str → List (ℕ × Str) → List (ℕ × Str)
sent_through w [] before = before
sent_through w (p ∷ ps) before = sent_through w ps ((w, p) ∷ before)

flush_each-sent :
    (w : ℕ) (queued : List Str) (s : Connection)
    → lookup w s.sockets ≡ some opened
    → ((flush_each w queued s).sent ≡ sent_through w queued s.sent)
      × ((flush_each w queued s).outbound ≡ s.outbound)
unfolding flush_each sent_through
flush_each-sent w [] s up = (refl, refl)
flush_each-sent w (p ∷ queued) s up =
    rw up (flush_each-sent w queued (record s { sent = (w, p) ∷ s.sent }) up)

-- Once a socket that is open has sent its registrations, the whole queue goes out through it, the
-- oldest message first, and the queue is empty.
on_registered-outbound :
    (w : ℕ) (s : Connection)
    → lookup w s.sockets ≡ some opened
    → ((on_registered true w s).sent ≡ sent_through w s.outbound s.sent)
      × ((on_registered true w s).outbound ≡ [])
unfolding on_registered flush
on_registered-outbound w s up = flush_each-sent w s.outbound (record s { outbound = [] }) up

send_out-deaf : (now : ℕ) (p : Str) (s : Connection) → s.listening ≡ [] → send_out now p s ≡ s
unfolding send_out send_each
send_out-deaf now p s none_left = rw none_left refl

-- What is neither a reconnect timer that fires, nor a socket that has sent its registrations, nor the
-- end of the connection.
abbrev pub Waits : ConnectionEvent → Type 0
Waits (fires now timer) = ⊥
Waits (registers ok w) = ⊥
Waits stops = ⊥
Waits _ = Unit

-- No socket listens, and nothing was sent or queued.
abbrev pub IsDeaf : Connection → Connection → Type 0
IsDeaf s t = (t.listening ≡ []) × (t.sent ≡ s.sent) × (t.outbound ≡ s.outbound)

watch-IsDeaf : (now : ℕ) (w : Option ℕ) (s t : Connection) → IsDeaf s t → IsDeaf s (watch now w t)
unfolding watch close_socket
watch-IsDeaf now none s t h = h
watch-IsDeaf now (some w) s t h = ground (arith, h)

connection_step-IsDeaf :
    (e : ConnectionEvent) (s t : Connection) → IsDeaf s t → Waits e → IsDeaf s (connection_step e t)
unfolding connection_step on_open on_close on_error close_socket on_message
connection_step-IsDeaf (sends now p) s t h f = rw (send_out-deaf now p t h.0) h
connection_step-IsDeaf (opens w) s t h f = h
connection_step-IsDeaf (closes w) s t h f = ground (arith, h)
connection_step-IsDeaf (fails w) s t h f = ground (arith, h)
connection_step-IsDeaf (registers ok w) s t h f = absurd f
connection_step-IsDeaf (fires now timer) s t h f = absurd f
connection_step-IsDeaf (watches now) s t h f = watch-IsDeaf now t.watchdog s t h
connection_step-IsDeaf (hears now is_pong) s t h f = h
connection_step-IsDeaf stops s t h f = absurd f

connection_run-IsDeaf_from :
    (es : List ConnectionEvent) (s t : Connection)
    → IsDeaf s t
    → All Waits es
    → IsDeaf s (connection_run es t)
unfolding connection_run
connection_run-IsDeaf_from [] s t h f = h
connection_run-IsDeaf_from (e ∷ es) s t h f =
    connection_run-IsDeaf_from es s (connection_step e t) (connection_step-IsDeaf e s t h f.0) f.1

on_close-IsDeaf : (w : ℕ) (s : Connection) → s.listening ≡ w ∷ [] → IsDeaf s (on_close w s)
unfolding on_close
on_close-IsDeaf w s one = ground (arith, one, eqb_iff w w)

-- When the one socket whose listeners are registered has closed: whatever messages are for the
-- beacon, and whatever else happens, until a reconnect timer fires, a socket ends its registrations
-- or the connection is given up, no message is sent and none is queued, and no socket listens.
pub connection_run-IsDeaf :
    (w : ℕ) (es : List ConnectionEvent) (s : Connection)
    → s.listening ≡ w ∷ []
    → All Waits es
    → IsDeaf s (connection_run es (on_close w s))
connection_run-IsDeaf w es s one f =
    connection_run-IsDeaf_from es s (on_close w s) (on_close-IsDeaf w s one) f

length-cut_outbound : (l : List Str) → length (cut_outbound l) ≤ max_outbound
length-cut_outbound l = ground (arith, length-drop (length l - max_outbound) l)

flush_each-length :
    (w : ℕ) (queued : List Str) (s : Connection) → (flush_each w queued s).outbound ≡ s.outbound
unfolding flush_each
flush_each-length w [] s = refl
flush_each-length w (p ∷ queued) s =
    let rest = flush_each-length w queued (record s { sent = (w, p) ∷ s.sent }) in
    ground (arith, rest)

close_current-outbound : (c : Option ℕ) (s : Connection) → (close_current c s).outbound ≡ s.outbound
unfolding close_current close_socket
close_current-outbound none s = refl
close_current-outbound (some w) s = refl

connect_ws-outbound : (now : ℕ) (s : Connection) → (connect_ws now s).outbound ≡ s.outbound
unfolding connect_ws new_socket
connect_ws-outbound now s =
    ground (arith, close_current-outbound s.current (record s { last_connect_start_at = now }))

send_or_queue-length :
    (now : ℕ) (p : Str) (w : ℕ) (s : Connection)
    → length s.outbound ≤ max_outbound
    → length (send_or_queue now p w s).outbound ≤ max_outbound
unfolding send_or_queue
send_or_queue-length now p w s fits = ground (
  arith,
  length-cut_outbound (s.outbound ++ p ∷ []),
  connect_ws-outbound now (record s { outbound = cut_outbound (s.outbound ++ p ∷ []) }),
  fits,
)

send_each-length :
    (now : ℕ) (p : Str) (ws : List ℕ) (s : Connection)
    → length s.outbound ≤ max_outbound
    → length (send_each now p ws s).outbound ≤ max_outbound
unfolding send_each
send_each-length now p [] s fits = fits
send_each-length now p (w ∷ ws) s fits =
    send_each-length now p ws (send_or_queue now p w s) (send_or_queue-length now p w s fits)

watch-outbound : (now : ℕ) (w : Option ℕ) (s : Connection) → (watch now w s).outbound ≡ s.outbound
unfolding watch close_socket
watch-outbound now none s = refl
watch-outbound now (some w) s = ground arith

stop_connection-outbound : (s : Connection) → (stop_connection s).outbound ≡ []
unfolding stop_connection
stop_connection-outbound s = close_current-outbound s.current _

-- Whatever happens to the connection, its queue holds at most 500 messages.
pub connection_step-outbound :
    (e : ConnectionEvent) (s : Connection)
    → length s.outbound ≤ max_outbound
    → length (connection_step e s).outbound ≤ max_outbound
unfolding connection_step send_out on_open on_registered flush on_close on_error close_socket
    on_timer on_message
connection_step-outbound (sends now p) s fits = send_each-length now p s.listening s fits
connection_step-outbound (opens w) s fits = fits
connection_step-outbound (closes w) s fits = ground (arith, fits)
connection_step-outbound (fails w) s fits = ground (arith, fits)
connection_step-outbound (registers ok w) s fits =
    ground (arith, flush_each-length w s.outbound (record s { outbound = [] }), fits)
connection_step-outbound (fires now timer) s fits =
    ground
      (arith, connect_ws-outbound now (record s { armed = clear_timer (some timer) s.armed }), fits)
connection_step-outbound (watches now) s fits = rw (watch-outbound now s.watchdog s) fits
connection_step-outbound (hears now is_pong) s fits = fits
connection_step-outbound stops s fits = rw (stop_connection-outbound s) (omega arith)

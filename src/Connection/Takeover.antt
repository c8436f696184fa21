-- ===== src/Connection/Takeover.antt =====
-- A socket in use opens while an older one closes.
use cordia.Base.{
  Bool-cases, Dict, List, Str, [], ap, arith, contains, contains-append_one, eqb_iff, false, inl,
  inr, lookup, lookup-put, nat_eq, put, refl, some, str_eq, true, ℕ, ◌++◌, ◌<◌, ◌∙◌, ◌∷◌, ◌≡◌, ◌≢◌,
}
use cordia.Connection.{
  Connection, ReadyState, opened, closed, flush_each, flush, on_open, on_registered, on_close,
  ConnectionEvent, opens, closes, registers, fires, connection_step, connection_run, is_open,
}

-- The socket `w` is in use and open, and the reconnect timer `timer` runs all the same.
pub record IsChurning (w timer : ℕ) (s : Connection) : Type 0 where
  pub in_use : s.current ≡ some w
  pub is_up : lookup w s.sockets ≡ some opened
  pub older : w < s.next_socket
  pub set_timer : s.reconnect_timer ≡ some timer
  pub is_armed : contains s.armed timer ≡ true
  pub goes_on : s.cancelled ≡ false

-- The timer fires, the browser closes the old socket, and the new one opens.
abbrev pub round : ℕ → ℕ → ℕ → ℕ → List ConnectionEvent
round now timer w w' = fires now timer ∷ closes w ∷ opens w' ∷ registers true w' ∷ []

-- The flush touches the queue and what was sent.
record IsLike (s t : Connection) : Type 0 where
  sockets : t.sockets ≡ s.sockets
  current : t.current ≡ s.current
  next_socket : t.next_socket ≡ s.next_socket
  reconnect_timer : t.reconnect_timer ≡ s.reconnect_timer
  pub armed : t.armed ≡ s.armed
  cancelled : t.cancelled ≡ s.cancelled

flush_each-IsLike : (w : ℕ) (queued : List Str) (s : Connection) → IsLike s (flush_each w queued s)
unfolding flush_each
flush_each-IsLike w [] s = record {
  sockets = refl;
  current = refl;
  next_socket = refl;
  reconnect_timer = refl;
  armed = refl;
  cancelled = refl;
}
flush_each-IsLike w (p ∷ queued) s = elim (Bool-cases (is_open (lookup w s.sockets))) [
  | inl up ↦
      let rest = flush_each-IsLike w queued (record s { sent = (w, p) ∷ s.sent }) in
      rw up (record {
        sockets = rest.sockets;
        current = rest.current;
        next_socket = rest.next_socket;
        reconnect_timer = rest.reconnect_timer;
        armed = rest.armed;
        cancelled = rest.cancelled;
      })
  | inr down ↦ rw down (record {
    sockets = refl;
    current = refl;
    next_socket = refl;
    reconnect_timer = refl;
    armed = refl;
    cancelled = refl;
  })
]

closed_fields :
    (v : ℕ) (s : Connection)
    → s.cancelled ≡ false
    → let t = on_close v s in
      (t.sockets ≡ put v closed s.sockets)
      × (t.current ≡ s.current)
      × (t.next_socket ≡ s.next_socket)
      × (t.reconnect_timer ≡ some s.next_timer)
      × (t.armed ≡ s.armed ++ s.next_timer ∷ [])
      × (t.cancelled ≡ false)
unfolding on_close
closed_fields v s on = ground (arith, on)

registered-IsLike : (w : ℕ) (s : Connection) → IsLike s (on_registered true w s)
unfolding on_registered flush
registered-IsLike w s =
    let rest = flush_each-IsLike w s.outbound (record s { outbound = [] }) in
    record {
      sockets = rest.sockets;
      current = rest.current;
      next_socket = rest.next_socket;
      reconnect_timer = rest.reconnect_timer;
      armed = rest.armed;
      cancelled = rest.cancelled;
    }

opened_sockets :
    (v w : ℕ) (sockets : Dict ℕ ReadyState)
    → v ≢ w
    → (lookup w (put w opened (put v closed sockets)) ≡ some opened)
      × (lookup v (put w opened (put v closed sockets)) ≡ some closed)
opened_sockets v w sockets other = ground (
  arith,
  lookup-put w w opened (put v closed sockets),
  lookup-put w v opened (put v closed sockets),
  lookup-put v v closed sockets,
  eqb_iff w w,
  eqb_iff w v,
  eqb_iff v v,
  other,
)

-- A socket that is in use opens, and an older one closes and sets a timer.
pub takes_over :
    (v w : ℕ) (s : Connection)
    → s.current ≡ some w
    → w < s.next_socket
    → s.cancelled ≡ false
    → v ≢ w
    → let t = connection_run (closes v ∷ opens w ∷ registers true w ∷ []) s in
      IsChurning w s.next_timer t × (lookup v t.sockets ≡ some closed)
unfolding connection_run connection_step on_open
takes_over v w s use_w older on other =
    let (sockets, current, next, timer, armed, still) = closed_fields v s on in
    let like = registered-IsLike w (on_open w (on_close v s)) in
    let both : (on_registered true w (on_open w (on_close v s))).sockets
        ≡ put w opened (put v closed s.sockets) =
      like.sockets ∙ ap (put w opened) sockets in
    let (up, down) = opened_sockets v w s.sockets other in
    (
      record {
        in_use = like.current ∙ current ∙ use_w;
        is_up = ap (lookup w) both ∙ up;
        older = omega (arith, like.next_socket, next, older);
        set_timer = like.reconnect_timer ∙ timer;
        is_armed =
            ap (λ l. contains l s.next_timer) (like.armed ∙ armed)
            ∙ ground (
              arith,
              contains-append_one s.next_timer s.next_timer s.armed,
              eqb_iff s.next_timer s.next_timer,
            );
        goes_on = like.cancelled ∙ still;
      },
      ap (lookup v) both ∙ down,
    )

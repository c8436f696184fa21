-- ===== src/Transfers/Stream/Wake.antt =====
-- What the writer does as it is woken, and the bytes that arrive, keep a download right.
use mathlib.Core.List.{append_assoc}
use cordia.Base.{
  Bool, Option, [], ap, arith, false, inl, inr, length, length-append, nat_eq, none, refl, some,
  str_eq, subst, sym, ◌++◌, ◌+◌, ◌∙◌, ◌∷◌, ◌≡◌, ◌⊎◌,
}
use cordia.Transfers.Stream.Batch.{total-append, flatten-append}
use cordia.Transfers.Stream.Content.{
  IsSound, IsRight, Holds, is_running, is_finishing, pause-IsSound,
}
use cordia.Transfers.Stream.{Bytes, StreamState, looping, waiting, Download, wake, accept}

pub IsSound-cong :
    (d e : Download) (st : StreamState)
    → e.writer ≡ d.writer
    → e.disk ≡ d.disk
    → e.arrived ≡ d.arrived
    → e.status ≡ d.status
    → IsSound d st
    → IsSound e st
IsSound-cong d e st writer disk arrived status h = record {
  is_started = h.is_started;
  pending_total = h.pending_total;
  received_total = h.received_total ∙ ap length (sym arrived);
  written_total = h.written_total ∙ ap length (sym disk);
  marked = h.marked ∙ ap is_running (sym writer);
  drained = rw writer h.drained;
  unfinished = rw status h.unfinished;
  order = rw (disk, writer, arrived) h.order;
}

-- A waiting writer that is woken is as good as before.
woken-IsSound :
    (d e : Download) (st : StreamState)
    → d.writer ≡ waiting
    → e.writer ≡ looping
    → e.disk ≡ d.disk
    → e.arrived ≡ d.arrived
    → e.status ≡ d.status
    → IsSound d st
    → IsSound e st
woken-IsSound d e st was now disk arrived status h = record {
  is_started = h.is_started;
  pending_total = h.pending_total;
  received_total = h.received_total ∙ ap length (sym arrived);
  written_total = h.written_total ∙ ap length (sym disk);
  marked = rw now (rw was at h.marked);
  drained = inl (ap is_finishing now);
  unfinished = rw status h.unfinished;
  order = rw (disk, now, arrived) (rw was at h.order);
}

wake_cases :
    (d : Download)
    → (wake d ≡ d) ⊎ ((d.writer ≡ waiting) × (wake d ≡ record d { writer = looping }))
unfolding wake
wake_cases d = ground arith

pub wake-IsRight : (d : Download) → IsRight d → IsRight (wake d)
wake-IsRight d h = elim (wake_cases d) [
  | inl e ↦ subst IsRight (sym e) h
  | inr (was, e) ↦ subst IsRight (sym e) (go d.stream was h)
]
  where
    go :
        (o : Option StreamState)
        → d.writer ≡ waiting
        → Holds d o
        → Holds (record d { writer = looping }) o
    go none was k = ground arith
    go (some st) was k = woken-IsSound d _ st was refl refl refl refl k

grown-IsSound :
    (bytes : Bytes) (d : Download) (st : StreamState)
    → IsSound d st
    → st.done_received ≡ false
    → IsSound
        (record d { arrived = d.arrived ++ bytes })
        (record st {
          received_bytes = st.received_bytes + length bytes;
          pending = st.pending ++ bytes ∷ [];
          pending_bytes = st.pending_bytes + length bytes;
        })
grown-IsSound bytes d st h open_end = record {
  is_started = h.is_started;
  pending_total = omega (arith, total-append st.pending bytes, h.pending_total);
  received_total = omega (arith, length-append d.arrived bytes, h.received_total);
  written_total = h.written_total;
  marked = h.marked;
  drained = ground (arith, h.drained);
  unfinished = h.unfinished;
  order = rw (flatten-append st.pending bytes, ← h.order) (simp append_assoc);
}

pub accept-IsRight :
    (sends : Bool) (bytes : Bytes) (d : Download) (st : StreamState)
    → IsSound d st
    → st.done_received ≡ false
    → IsRight (accept sends bytes d st)
unfolding accept
accept-IsRight sends bytes d st h open_end =
    IsSound-cong _ _ _ refl refl refl refl
      (pause-IsSound sends _ _ (grown-IsSound bytes d st h open_end))

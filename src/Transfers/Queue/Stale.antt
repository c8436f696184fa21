-- ===== src/Transfers/Queue/Stale.antt =====
-- What the copy of the rows, renewed only by a render, means for a download that ends.
use cordia.Base.{
  List, Str, [], any, ap, arith, false, find, nat_eq, refl, some, str_eq, true, ◌+◌, ◌-◌, ◌∙◌, ◌∷◌,
  ◌≡◌, ◌≤◌,
}
use cordia.Transfers.Rows.{Transfer, has_id, upsert_transfer}
use cordia.Transfers.Queue.{
  Downloads, counts, active_count, active_download_count, max_parallel_downloads, patch, start_loop,
  try_start_next_queued_download, settle,
}
use cordia.Transfers.Queue.Slots.{length-keep-update_first_off}

any_of_find :
    (id : Str) (rows : List Transfer) (t : Transfer)
    → find (has_id id) rows ≡ some t
    → any (has_id id) rows ≡ true
any_of_find id [] t e = absurd (ground arith)
any_of_find id (r ∷ rows) t e = ground (arith, any_of_find id rows t)

active_count-settled :
    (id : Str) (f : Transfer → Transfer) (rows : List Transfer) (t : Transfer)
    → find (has_id id) rows ≡ some t
    → counts t ≡ true
    → counts (f t) ≡ false
    → active_count (upsert_transfer id (patch f) rows) + 1 ≡ active_count rows
unfolding active_count upsert_transfer
active_count-settled id f rows t e on off =
    rw (any_of_find id rows t e) (length-keep-update_first_off counts (has_id id) f rows t e on off)

try_start_full :
    (s : Downloads)
    → max_parallel_downloads ≤ active_download_count s
    → try_start_next_queued_download s ≡ s
unfolding try_start_next_queued_download start_loop
try_start_full s h =
    let none_free : max_parallel_downloads - active_download_count s ≡ 0 = omega arith in
    rw (none_free, start_loop) refl

-- When both slots are taken and one of the two downloads ends, its handler starts nothing: it counts
-- the rows as they were before. The queue stays as it was, no request goes out, and one slot is free.
pub settle-stale :
    (s : Downloads) (id : Str) (f : Transfer → Transfer) (t : Transfer)
    → s.seen ≡ s.transfers
    → active_count s.transfers ≡ max_parallel_downloads
    → find (has_id id) s.transfers ≡ some t
    → counts t ≡ true
    → counts (f t) ≡ false
    → ((settle id f s).queue ≡ s.queue)
      × ((settle id f s).requests ≡ s.requests)
      × (active_count (settle id f s).transfers + 1 ≡ max_parallel_downloads)
unfolding settle active_download_count
settle-stale s id f t same full e on off =
    let after = record s { transfers = upsert_transfer id (patch f) s.transfers } in
    let stuck = try_start_full after (omega (arith, full, ap active_count same)) in
    rw stuck (refl, refl, active_count-settled id f s.transfers t e on off ∙ full)

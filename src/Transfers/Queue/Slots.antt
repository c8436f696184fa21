-- ===== src/Transfers/Queue/Slots.antt =====
-- How many downloads run: the queue fills the free slots, and no more.
use cordia.Base.{
  Bool, Bool-cases, List, Option, Str, [], any, ap, arith, false, find, inl, inr, keep, length,
  length-append, min, nat_eq, none, refl, some, str_eq, suc, true, zero, ℕ, ◌++◌, ◌+◌, ◌-◌, ◌∷◌,
  ◌≡◌, ◌≤◌,
}
use cordia.Transfers.Rows.{Transfer, has_id, update_first, upsert_transfer}
use cordia.Transfers.Queue.{
  QueuedDownloadRequest, Downloads, counts, active_count, active_download_count,
  max_parallel_downloads, patch, to_requesting, take_smallest, start_download, start_loop,
  try_start_next_queued_download,
}
use cordia.Transfers.Queue.Pick.{take_smallest-IsFirstSmallest}

module _ (c : Transfer → Bool) where
  length-keep-update_first :
      (p : Transfer → Bool) (f : Transfer → Transfer) (rows : List Transfer)
      → length (keep c (update_first p f rows)) ≤ length (keep c rows) + 1
  unfolding update_first
  length-keep-update_first p f [] = omega arith
  length-keep-update_first p f (t ∷ rows) = ground (arith, length-keep-update_first p f rows)

  length-keep-append_one :
      (rows : List Transfer) (t : Transfer)
      → length (keep c (rows ++ t ∷ [])) ≤ length (keep c rows) + 1
  length-keep-append_one [] t = ground arith
  length-keep-append_one (r ∷ rows) t = ground (arith, length-keep-append_one rows t)

  -- A row that counted and counts no more.
  pub length-keep-update_first_off :
      (p : Transfer → Bool) (f : Transfer → Transfer) (rows : List Transfer) (t : Transfer)
      → find p rows ≡ some t
      → c t ≡ true
      → c (f t) ≡ false
      → length (keep c (update_first p f rows)) + 1 ≡ length (keep c rows)
  unfolding update_first
  length-keep-update_first_off p f [] t e on off = absurd (ground arith)
  length-keep-update_first_off p f (r ∷ rows) t e on off =
      ground (arith, length-keep-update_first_off p f rows t)

-- One `upsertTransfer` adds at most one active download.
pub active_count-upsert_transfer :
    (id : Str) (f : Option Transfer → Transfer) (rows : List Transfer)
    → active_count (upsert_transfer id f rows) ≤ active_count rows + 1
unfolding active_count upsert_transfer
active_count-upsert_transfer id f rows = elim (Bool-cases (any (has_id id) rows)) [
  | inl e ↦ rw e (length-keep-update_first counts (has_id id) (λ t. f (some t)) rows)
  | inr e ↦ rw e (length-keep-append_one counts rows (f none))
]

length-take_smallest :
    (q : QueuedDownloadRequest) (qs : List QueuedDownloadRequest)
    → length (take_smallest q qs).1 ≡ length qs
length-take_smallest q qs =
    let s = take_smallest-IsFirstSmallest q qs in
    omega (
      arith,
      ap length s.whole,
      ap length s.left,
      length-append s.before ((take_smallest q qs).0 ∷ s.after),
      length-append s.before s.after,
    )

start_loop-active :
    (slots : ℕ) (q : List QueuedDownloadRequest) (s : Downloads)
    → active_count (start_loop slots q s).transfers ≤ active_count s.transfers + slots
unfolding start_loop
start_loop-active zero q s = omega arith
start_loop-active (suc slots) [] s = omega arith
start_loop-active (suc slots) (q ∷ qs) s =
    let (next, rest) = take_smallest q qs in
    omega
      (arith, start_loop-active slots rest (start_download next s), start_download-active next s)
  where
    start_download-active :
        (n : QueuedDownloadRequest) (d : Downloads)
        → active_count (start_download n d).transfers ≤ active_count d.transfers + 1
    start_download-active n d =
        unfold start_download in
        active_count-upsert_transfer n.request_id (patch to_requesting) d.transfers

start_loop-queue :
    (slots : ℕ) (q : List QueuedDownloadRequest) (s : Downloads)
    → (length (start_loop slots q s).queue ≡ length q - slots)
      × (length (start_loop slots q s).requests ≡ length s.requests + min slots (length q))
unfolding start_loop
start_loop-queue zero q s = omega arith
start_loop-queue (suc slots) [] s = omega arith
start_loop-queue (suc slots) (q ∷ qs) s =
    let (next, rest) = take_smallest q qs in
    let ih = start_loop-queue slots rest (start_download next s) in
    let sent : length (start_download next s).requests ≡ suc (length s.requests) =
      unfold start_download in refl in
    (
      omega (arith, ih.0, length-take_smallest q qs),
      omega (arith, ih.1, sent, length-take_smallest q qs),
    )

-- Where the handlers see the rows as they are, at most two downloads run after the next ones were
-- started, if no more ran before.
pub try_start-within_limit :
    (s : Downloads)
    → s.seen ≡ s.transfers
    → active_count s.transfers ≤ max_parallel_downloads
    → active_count (try_start_next_queued_download s).transfers ≤ max_parallel_downloads
unfolding try_start_next_queued_download active_download_count
try_start-within_limit s e h = omega (
  arith,
  start_loop-active (max_parallel_downloads - active_count s.seen) s.queue s,
  ap active_count e,
)

-- As many downloads are started as slots are free in what the handlers see, or as wait: so many
-- requests go out, and so many entries leave the queue.
try_start-fills :
    (s : Downloads)
    → let free = max_parallel_downloads - active_download_count s in
      (length (try_start_next_queued_download s).queue ≡ length s.queue - free)
      × (length (try_start_next_queued_download s).requests
          ≡ length s.requests + min free (length s.queue))
unfolding try_start_next_queued_download
try_start-fills s = start_loop-queue (max_parallel_downloads - active_download_count s) s.queue s

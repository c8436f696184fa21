-- ===== src/Transfers/Request/Unseen.antt =====
-- Requests between two renders do not see one another.
use cordia.Base.{
  Bool, Bool-cases, List, Str, [], any, ap, arith, false, if◌then◌else◌, inl, inr, keep, leb,
  length, nat_eq, refl, str_eq, ℕ, ◌++◌, ◌+◌, ◌∙◌, ◌∷◌, ◌≡◌,
}
use cordia.Messages.{AttachmentMeta, ChatMessage}
use cordia.Transfers.Rows.{Transfer, has_id, upsert_transfer, is_active, Status}
use cordia.Transfers.Queue.{
  Downloads, QueuedDownloadRequest, counts, active_count, active_download_count,
  max_parallel_downloads, enqueue_download,
}
use cordia.Transfers.Request.{begin_request, new_transfer, first_status}

length-keep-append_one :
    (c : Transfer → Bool) (rows : List Transfer) (t : Transfer)
    → length (keep c (rows ++ t ∷ [])) ≡ length (keep c rows) + (if c t then 1 else 0)
length-keep-append_one c [] t = ground arith
length-keep-append_one c (r ∷ rows) t = ground (arith, length-keep-append_one c rows t)

-- The store of a new request: one more row, which counts unless it is queued.
entered :
    (me id : Str) (msg : ChatMessage) (att : AttachmentMeta) (status : Status)
    (rows : List Transfer)
    → any (has_id id) rows ≡ false
    → active_count (upsert_transfer id (λ _. new_transfer me id msg att status) rows)
      ≡ active_count rows + (if is_active status then 1 else 0)
unfolding active_count upsert_transfer
entered me id msg att status rows new =
    rw new (length-keep-append_one counts rows (new_transfer me id msg att status))

enqueue_keeps :
    (q : QueuedDownloadRequest) (s : Downloads)
    → ((enqueue_download q s).transfers ≡ s.transfers) × ((enqueue_download q s).seen ≡ s.seen)
unfolding enqueue_download
enqueue_keeps q s = ground arith

begin_request-transfers :
    (me id : Str) (msg : ChatMessage) (att : AttachmentMeta) (peers : List Str) (s : Downloads)
    → ((begin_request me id msg att peers s).transfers
        ≡ upsert_transfer id (λ _. new_transfer me id msg att (first_status s)) s.transfers)
      × ((begin_request me id msg att peers s).seen ≡ s.seen)
unfolding begin_request
begin_request-transfers me id msg att peers s =
    elim (Bool-cases (leb max_parallel_downloads (active_download_count s))) [
      | inl full ↦ rw full (enqueue_keeps _ _)
      | inr free ↦ rw free (refl, refl)
    ]

starts :
    (s : Downloads)
    → ◌≡◌ {A = ℕ}
        (if is_active (first_status s) then 1 else 0)
        (if leb max_parallel_downloads (active_download_count s) then 0 else 1)
starts s = ground arith

-- With a free slot in what the handlers see, a request under a new id starts at once, whatever the
-- store says, and the handlers see no more than before; without one, it is queued and starts nothing.
active_count-begin_request :
    (me id : Str) (msg : ChatMessage) (att : AttachmentMeta) (peers : List Str) (s : Downloads)
    → any (has_id id) s.transfers ≡ false
    → (active_count (begin_request me id msg att peers s).transfers
        ≡ active_count s.transfers
          + (if leb max_parallel_downloads (active_download_count s) then 0 else 1))
      × ((begin_request me id msg att peers s).seen ≡ s.seen)
active_count-begin_request me id msg att peers s new =
    let (rows, same) = begin_request-transfers me id msg att peers s in
    (
      ap active_count rows
          ∙ entered me id msg att (first_status s) s.transfers new
          ∙ ap (λ n. active_count s.transfers + n) (starts s),
      same,
    )

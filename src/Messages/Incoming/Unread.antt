-- ===== src/Messages/Incoming/Unread.antt =====
-- What the unread counts count.
use cordia.Base.{
  Bool, Str, any, arith, false, if◌then◌else◌, lookup, lookup-put, nat_eq, not, refl, str_beq_iff,
  str_eq, true, truthy, ℕ, ◌&&◌, ◌+◌, ◌==◌, ◌≡◌,
}
use cordia.Messages.{ChatMessage, MessageBuckets}
use cordia.Messages.Buckets.{bucket_key, list_of, is_message}
use cordia.Messages.Incoming.{
  Inbox, IncomingChat, count_of, id_of, increment_unread, mark_server_seen, enter, receive,
}

-- The unread count of a server.
abbrev pub unread : Str → Inbox → ℕ
unread id s = count_of (lookup id s.unread_count_by_server)

-- The server of a key, by its id.
abbrev pub is_server : Str → Str → Inbox → Bool
is_server id signing_pubkey s =
    truthy (id_of (lookup signing_pubkey s.server_ids))
    && id_of (lookup signing_pubkey s.server_ids) == id

unread-increment_unread :
    (signing_pubkey id : Str) (s : Inbox)
    → unread id (increment_unread signing_pubkey s)
      ≡ unread id s + (if is_server id signing_pubkey s then 1 else 0)
unfolding increment_unread
unread-increment_unread pk id s =
    let own = id_of (lookup pk s.server_ids) in
    ground (
      arith,
      lookup-put own id (count_of (lookup own s.unread_count_by_server) + 1)
          s.unread_count_by_server,
      str_beq_iff own id,
    )

-- Seeing a server sets its count to 0, and no other.
unread-mark_server_seen :
    (now signing_pubkey id : Str) (s : Inbox)
    → unread id (mark_server_seen now signing_pubkey s)
      ≡ (if is_server id signing_pubkey s then 0 else unread id s)
unfolding mark_server_seen
unread-mark_server_seen now pk id s =
    let own = id_of (lookup pk s.server_ids) in
    ground (arith, lookup-put own id 0 s.unread_count_by_server)

increment_unread-buckets :
    (signing_pubkey : Str) (s : Inbox) → (increment_unread signing_pubkey s).buckets ≡ s.buckets
unfolding increment_unread
increment_unread-buckets pk s = ground arith

module _ (stored_bytes : MessageBuckets → ℕ) (time_of : Str → ℕ) (max_storage_mb : Str → ℕ) where
  -- A message adds one to the count of its server, unless that server is the active one, and
  -- nothing to other counts.
  unread-receive :
      (d : IncomingChat) (msg : ChatMessage) (id : Str) (s : Inbox)
      → unread id (receive stored_bytes time_of max_storage_mb d msg s)
        ≡ unread id s
          + (if not (d.signing_pubkey == s.active) && is_server id d.signing_pubkey s then 1 else 0)
  unfolding receive
  unread-receive d msg id s =
      let entered = record s {
        buckets = enter stored_bytes time_of max_storage_mb d msg s.buckets;
      } in
      ground (arith, unread-increment_unread d.signing_pubkey id entered)

  -- A message that came before and comes again leaves the buckets, and is counted as unread again.
  unread-receive_again :
      (d : IncomingChat) (msg : ChatMessage) (id : Str) (s : Inbox)
      → any
          (is_message d.message_id)
          (list_of (lookup (bucket_key d.signing_pubkey d.chat_id) s.buckets))
        ≡ true
      → (d.signing_pubkey == s.active) ≡ false
      → is_server id d.signing_pubkey s ≡ true
      → ((receive stored_bytes time_of max_storage_mb d msg s).buckets ≡ s.buckets)
        × (unread id (receive stored_bytes time_of max_storage_mb d msg s) ≡ unread id s + 1)
  unfolding receive enter
  unread-receive_again d msg id s old away own = (
    rw (away, increment_unread-buckets d.signing_pubkey) (rw old refl),
    ground (arith, unread-receive d msg id s),
  )

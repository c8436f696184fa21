-- ===== src/Messages/Storage/Kept.antt =====
-- A chat that was opened keeps what was stored when a message comes in.
use cordia.Messages.Storage.Single.{
  put_all-only, entry_of, map_entry, map_entry-bucket, group_one, append_message-only, by_time,
  lookup-only, only,
}
use mathlib.Core.List.{append-nil, Perm}
use mathlib.Core.List.Perm
use cordia.Base.{
  All, Bool-cases, List, Str, [], any, ap, arith, false, inl, inr, insert_by, leb, lookup,
  lookup-put, map, nat_eq, put, refl, some, sort_by, sort_by-All, sort_by-perm, str_beq_iff, str_eq,
  subst, true, ℕ, ◌*◌, ◌++◌, ◌∷◌, ◌≡◌, ◌≤◌,
}
use cordia.Messages.{ChatMessage, MessageBuckets}
use cordia.Messages.Buckets.{bucket_key, is_message}
use cordia.Messages.Incoming.{IncomingChat, enter}
use cordia.Messages.Prune.{
  Entry, is_of_server, entries, group, fit, server_entries, prune_buckets, append_and_prune,
}
use cordia.Settings.{MessageStorageSettings}
use cordia.Messages.Storage.Lost.{IsKept, persist_one, is_of_server-bucket_key}
use cordia.Messages.Storage.{
  Chats, persist_key, log_in, merge_loaded, load_bucket, ensure_bucket_loaded, persist_each,
  persist_all, take_in,
}

module _ (time_of : Str → ℕ) where
  sorted : Str → List ChatMessage → List Entry
  sorted k l = sort_by (λ e. time_of e.message.sent_at) (map (entry_of k) l)

  sorted-bucket : (k : Str) (l : List ChatMessage) → All (λ e. e.bucket ≡ k) (sorted k l)
  unfolding sorted
  sorted-bucket k l =
      sort_by-All (λ e. time_of e.message.sent_at) (λ e. e.bucket ≡ k) _ (map_entry-bucket k l)

  pub by_time-perm : (k : Str) (l : List ChatMessage) → Perm (by_time time_of k l) l
  by_time-perm k l =
      subst (λ t. Perm (by_time time_of k l) t) (map_entry k l)
        (Perm.map (λ e. e.message)
          (sort_by-perm (λ e. time_of e.message.sent_at) (map (entry_of k) l)))

  server_entries_one :
      (pk k : Str) (l : List ChatMessage)
      → is_of_server pk k ≡ true
      → server_entries time_of ((k, l) ∷ []) pk ≡ sorted k l
  unfolding server_entries sorted entries
  server_entries_one pk k l h =
      rw h (ap (sort_by (λ e. time_of e.message.sent_at)) (append-nil (map (entry_of k) l)))

module _ (stored_bytes : MessageBuckets → ℕ) (time_of : Str → ℕ) where
  prune_alone :
      (mb : ℕ) (pk k : Str) (l : List ChatMessage)
      → is_of_server pk k ≡ true
      → stored_bytes (only k (by_time time_of k l)) ≤ mb * 1024 * 1024
      → prune_buckets stored_bytes time_of ((k, l) ∷ []) mb pk ≡ only k (by_time time_of k l)
  unfolding prune_buckets fit
  prune_alone mb pk k l own small =
      let es = sorted time_of k l in
      let one : group es ≡ only k (by_time time_of k l) =
        unfold sorted in group_one k es (sorted-bucket time_of k l) in
      rw (server_entries_one time_of pk k l own, one, own)
        (ground (arith, small, put_all-only k (by_time time_of k l)))

insert_by_some :
    (key : Entry → ℕ) (e : Entry) (es : List Entry)
    → (first : Entry) × (rest : List Entry) × (insert_by key e es ≡ first ∷ rest)
unfolding insert_by
insert_by_some key e [] = (e, [], refl)
insert_by_some key e (x ∷ es) = elim (Bool-cases (leb (key e) (key x))) [
  | inl h ↦ (e, x ∷ es, rw h refl)
  | inr h ↦ (x, insert_by key e es, rw h refl)
]

by_time_some :
    (time_of : Str → ℕ) (k : Str) (l : List ChatMessage) (m : ChatMessage)
    → (first : ChatMessage) × (rest : List ChatMessage) × (by_time time_of k (l ++ m ∷ [])
        ≡ first ∷ rest)
unfolding sort_by sorted
by_time_some time_of k [] m = (m, [], unfold insert_by in refl)
by_time_some time_of k (x ∷ l) m =
    let (first, rest, e) =
      insert_by_some (λ e. time_of e.message.sent_at) (entry_of k x)
        (sorted time_of k (l ++ m ∷ [])) in
    (first.message, map (λ e. e.message) rest, ap (map (λ e. e.message)) e)

module _ (stored_bytes : MessageBuckets → ℕ) (time_of : Str → ℕ) (account : Str)
    (settings : Str → MessageStorageSettings) (d : IncomingChat) (msg : ChatMessage) where
  -- What is stored of the chat fits, and with the message as well.
  abbrev pub Fits : List ChatMessage → Type 0
  Fits old =
      let k = bucket_key d.signing_pubkey d.chat_id in
      let limit = (settings d.signing_pubkey).max_storage_mb * 1024 * 1024 in
      let opened = by_time time_of k old in
      (stored_bytes (only k opened) ≤ limit)
      × (stored_bytes (only k (by_time time_of k (opened ++ msg ∷ []))) ≤ limit)

  open_stored :
      (storage : MessageBuckets) (o : ChatMessage) (old : List ChatMessage)
      → IsKept stored_bytes account settings d msg
      → Fits (o ∷ old)
      → let k = bucket_key d.signing_pubkey d.chat_id in
        lookup (persist_key account k) storage ≡ some (o ∷ old)
        → ensure_bucket_loaded stored_bytes time_of account settings d.signing_pubkey d.chat_id
            (log_in storage)
          ≡ record {
            buckets = only k (by_time time_of k (o ∷ old));
            loaded_buckets = k ∷ [];
            storage = storage;
          }
  unfolding ensure_bucket_loaded load_bucket merge_loaded log_in lookup put
  open_stored storage o old h f e =
      let k = bucket_key d.signing_pubkey d.chat_id in
      rw (h.has_account, h.has_server, h.has_chat, e)
        (ap {B = Chats} (λ b. record { buckets = b; loaded_buckets = k ∷ []; storage = storage })
          (prune_alone stored_bytes time_of (settings d.signing_pubkey).max_storage_mb
            d.signing_pubkey k (o ∷ old) (is_of_server-bucket_key d.signing_pubkey d.chat_id) f.0))

  enter_opened :
      (l : List ChatMessage)
      → let k = bucket_key d.signing_pubkey d.chat_id in
        any (is_message d.message_id) l ≡ false
        → stored_bytes (only k (by_time time_of k (l ++ msg ∷ [])))
          ≤ (settings d.signing_pubkey).max_storage_mb * 1024 * 1024
        → enter stored_bytes time_of (λ pk. (settings pk).max_storage_mb) d msg (only k l)
          ≡ only k (by_time time_of k (l ++ msg ∷ []))
  unfolding enter append_and_prune
  enter_opened l new small =
      let k = bucket_key d.signing_pubkey d.chat_id in
      rw (lookup-only k l, new, append_message-only d.signing_pubkey d.chat_id l msg)
        (prune_alone stored_bytes time_of (settings d.signing_pubkey).max_storage_mb
          d.signing_pubkey k (l ++ msg ∷ []) (is_of_server-bucket_key d.signing_pubkey d.chat_id)
          small)

  persist_each-only :
      (l : List ChatMessage) (storage : MessageBuckets)
      → IsKept stored_bytes account settings d msg
      → ((first : ChatMessage) × (rest : List ChatMessage) × (l ≡ first ∷ rest))
      → let k = bucket_key d.signing_pubkey d.chat_id in
        lookup
          (persist_key account k)
          (persist_each stored_bytes time_of account settings (only k l) storage)
        ≡ some l
  persist_each-only l storage h (first, rest, e) =
      let k = bucket_key d.signing_pubkey d.chat_id in
      let key = persist_key account k in
      rw (e, persist_one stored_bytes time_of account settings d msg storage first rest h)
        (ground (arith, lookup-put key key (first ∷ rest) storage, str_beq_iff key key))

  -- Straight after the log-in, when no chat is in memory, one chat of which messages are stored is
  -- opened, and then a message comes in for it whose id none of those has. The chat alone has room
  -- within its server's limit, without the message and with it; the server's storage is persistent,
  -- and its key and the chat's id have no colon. Then what is stored of the chat is what was stored
  -- before and the message, by time, and nothing else.
  pub take_in_opened :
      (storage : MessageBuckets) (o : ChatMessage) (old : List ChatMessage)
      → IsKept stored_bytes account settings d msg
      → Fits (o ∷ old)
      → let k = bucket_key d.signing_pubkey d.chat_id in
        let s =
          ensure_bucket_loaded stored_bytes time_of account settings d.signing_pubkey d.chat_id
            (log_in storage) in
        let after = by_time time_of k (by_time time_of k (o ∷ old) ++ msg ∷ []) in
        lookup (persist_key account k) storage ≡ some (o ∷ old)
        → any (is_message d.message_id) (by_time time_of k (o ∷ old)) ≡ false
        → (lookup
              (persist_key account k)
              (take_in stored_bytes time_of account settings d msg s).storage
            ≡ some after)
          × Perm after ((o ∷ old) ++ msg ∷ [])
  unfolding take_in persist_all
  take_in_opened storage o old h f e new =
      let k = bucket_key d.signing_pubkey d.chat_id in
      let opened = by_time time_of k (o ∷ old) in
      (
        rw (open_stored storage o old h f e, enter_opened opened new f.1, h.has_account)
            (persist_each-only (by_time time_of k (opened ++ msg ∷ [])) storage h
              (by_time_some time_of k opened msg)),
        Perm.trans (by_time-perm time_of k (opened ++ msg ∷ []))
            (Perm.append_right (msg ∷ []) (by_time-perm time_of k (o ∷ old))),
      )

-- ===== src/Messages/Storage/Lost.antt =====
-- What becomes of a stored chat when a message comes in, before and after the chat was opened.
use mathlib.Core.List.{append_assoc}
use cordia.Base.{
  List, Option, Str, [], ap, arith, eqb_iff, insert_by, lookup, lookup-put, nat_eq, none, put, refl,
  some, sort_by, str_beq_iff, str_eq, subst, true, truthy, units, ℕ, ◌*◌, ◌++◌, ◌∙◌, ◌∷◌, ◌≡◌, ◌≤◌,
}
use cordia.Messages.{ChatMessage, MessageBuckets}
use cordia.Messages.Buckets.{bucket_key, list_of, append_message}
use cordia.Messages.Incoming.{IncomingChat, enter}
use cordia.Messages.Prune.{
  starts_with, is_of_server, entries, push_entry, group_onto, fit, server_entries, prune_buckets,
  append_and_prune,
}
use cordia.Messages.Prune.Keys.{has_no_colon}
use cordia.Settings.{MessageStorageSettings, persistent}
use cordia.Messages.Storage.{
  Chats, persist_key, until_colons, after_colons, log_in, merge_loaded, load_bucket,
  ensure_bucket_loaded, write_bucket, persist_bucket, persist_each, persist_all, take_in,
}

starts_with-append : (a b : Str) → starts_with a (a ++ b) ≡ true
starts_with-append [] b = refl
starts_with-append (c ∷ a) b = ground (arith, starts_with-append a b, eqb_iff c c)

pub is_of_server-bucket_key : (pk chat : Str) → is_of_server pk (bucket_key pk chat) ≡ true
unfolding is_of_server bucket_key
is_of_server-bucket_key pk chat =
    subst (λ t. starts_with (pk ++ units "::") t ≡ true) (append_assoc pk (units "::") chat)
      (starts_with-append (pk ++ units "::") chat)

pub until_colons-append : (a b : Str) → has_no_colon a ≡ true → until_colons (a ++ 58 ∷ 58 ∷ b) ≡ a
unfolding until_colons
until_colons-append [] b h = refl
until_colons-append (c ∷ a) b h = ground (arith, until_colons-append a b, eqb_iff c 58)

pub until_colons_all : (a : Str) → has_no_colon a ≡ true → until_colons a ≡ a
unfolding until_colons
until_colons_all [] h = refl
until_colons_all (c ∷ a) h = ground (arith, until_colons_all a)

pub after_colons-append : (a b : Str) → has_no_colon a ≡ true → after_colons (a ++ 58 ∷ 58 ∷ b) ≡ b
unfolding after_colons
after_colons-append [] b h = refl
after_colons-append (c ∷ a) b h = ground (arith, after_colons-append a b, eqb_iff c 58)

-- One bucket alone: its messages by time.
one_entry :
    (k : Str) (m : ChatMessage)
    → entries ((k, m ∷ []) ∷ []) ≡ record { bucket = k; message = m } ∷ []
unfolding entries
one_entry k m = refl

module _ (stored_bytes : MessageBuckets → ℕ) (time_of : Str → ℕ) where
  prune_one :
      (mb : ℕ) (pk k : Str) (m : ChatMessage)
      → is_of_server pk k ≡ true
      → stored_bytes ((k, m ∷ []) ∷ []) ≤ mb * 1024 * 1024
      → prune_buckets stored_bytes time_of ((k, m ∷ []) ∷ []) mb pk ≡ (k, m ∷ []) ∷ []
  unfolding prune_buckets fit server_entries entries group_onto push_entry sort_by insert_by lookup
      put
  prune_one mb pk k m own small = rw own (ground (arith, small))

module _ (stored_bytes : MessageBuckets → ℕ) (account : Str)
    (settings : Str → MessageStorageSettings) (d : IncomingChat) (msg : ChatMessage) where
  -- A chat of an account with persistent storage, whose keys have no colon, and a message that fits.
  pub record IsKept : Type 0 where
    pub has_account : truthy account ≡ true
    pub has_server : truthy d.signing_pubkey ≡ true
    pub has_chat : truthy d.chat_id ≡ true
    pub server_plain : has_no_colon d.signing_pubkey ≡ true
    pub chat_plain : has_no_colon d.chat_id ≡ true
    pub is_persistent : (settings d.signing_pubkey).mode ≡ persistent
    pub fits :
        stored_bytes ((bucket_key d.signing_pubkey d.chat_id, msg ∷ []) ∷ [])
        ≤ (settings d.signing_pubkey).max_storage_mb * 1024 * 1024

module _ (stored_bytes : MessageBuckets → ℕ) (time_of : Str → ℕ) (account : Str)
    (settings : Str → MessageStorageSettings) where
  pub load_known :
      (pk k : Str) (o : Option (List ChatMessage)) (s : Chats) (m : ChatMessage)
      (ms : List ChatMessage)
      → lookup k s.buckets ≡ some (m ∷ ms)
      → let t = load_bucket stored_bytes time_of account settings pk k o s in
        (t.buckets ≡ s.buckets) × (t.storage ≡ s.storage)
  unfolding load_bucket merge_loaded
  load_known pk k none s m ms e = (refl, refl)
  load_known pk k (some []) s m ms e = (refl, refl)
  load_known pk k (some (x ∷ xs)) s m ms e = (rw (e, merge_loaded) refl, refl)

  -- Opening a chat that is in memory changes nothing but the mark.
  open_known :
      (pk chat : Str) (s : Chats) (m : ChatMessage) (ms : List ChatMessage)
      → lookup (bucket_key pk chat) s.buckets ≡ some (m ∷ ms)
      → let t = ensure_bucket_loaded stored_bytes time_of account settings pk chat s in
        (t.buckets ≡ s.buckets) × (t.storage ≡ s.storage)
  unfolding ensure_bucket_loaded
  open_known pk chat s m ms e = ground (
    arith,
    load_known pk (bucket_key pk chat) (lookup (persist_key account (bucket_key pk chat)) s.storage)
        (record s { loaded_buckets = s.loaded_buckets ++ bucket_key pk chat ∷ [] }) m ms e,
  )

module _ (stored_bytes : MessageBuckets → ℕ) (time_of : Str → ℕ) (account : Str)
    (settings : Str → MessageStorageSettings) (d : IncomingChat) (msg : ChatMessage) where
  enter_first :
      IsKept stored_bytes account settings d msg
      → enter stored_bytes time_of (λ pk. (settings pk).max_storage_mb) d msg []
        ≡ (bucket_key d.signing_pubkey d.chat_id, msg ∷ []) ∷ []
  unfolding enter append_and_prune append_message lookup put
  enter_first h =
      prune_one stored_bytes time_of (settings d.signing_pubkey).max_storage_mb d.signing_pubkey _
        msg (is_of_server-bucket_key d.signing_pubkey d.chat_id) h.fits

  pub persist_one :
      (storage : MessageBuckets) (m : ChatMessage) (ms : List ChatMessage)
      → IsKept stored_bytes account settings d msg
      → persist_each stored_bytes time_of account settings
          ((bucket_key d.signing_pubkey d.chat_id, m ∷ ms) ∷ [])
          storage
        ≡ put (persist_key account (bucket_key d.signing_pubkey d.chat_id)) (m ∷ ms) storage
  unfolding persist_each persist_bucket write_bucket bucket_key
  persist_one storage m ms h =
      rw
        (
          until_colons-append d.signing_pubkey d.chat_id h.server_plain,
          after_colons-append d.signing_pubkey d.chat_id h.server_plain,
          until_colons_all d.chat_id h.chat_plain,
          h.has_server,
          h.has_chat,
          h.is_persistent,
        )
        refl

  take_in_first :
      (storage : MessageBuckets)
      → IsKept stored_bytes account settings d msg
      → let k = bucket_key d.signing_pubkey d.chat_id in
        take_in stored_bytes time_of account settings d msg (log_in storage) ≡ record {
          buckets = (k, msg ∷ []) ∷ [];
          loaded_buckets = [];
          storage = put (persist_key account k) (msg ∷ []) storage;
        }
  unfolding take_in persist_all log_in
  take_in_first storage h = rw (enter_first h, h.has_account, persist_one storage msg [] h) refl

  -- When a message is the first one of a session for a chat that was not opened yet, and the storage
  -- is persistent: whatever was stored of the chat, the message alone is stored afterwards, and
  -- opening the chat shows it alone.
  pub take_in_unopened :
      (storage : MessageBuckets)
      → IsKept stored_bytes account settings d msg
      → let k = bucket_key d.signing_pubkey d.chat_id in
        let s =
          ensure_bucket_loaded stored_bytes time_of account settings d.signing_pubkey d.chat_id
            (take_in stored_bytes time_of account settings d msg (log_in storage)) in
        (lookup (persist_key account k) s.storage ≡ some (msg ∷ []))
        × (list_of (lookup k s.buckets) ≡ msg ∷ [])
  take_in_unopened storage h =
      let k = bucket_key d.signing_pubkey d.chat_id in
      let key = persist_key account k in
      let t : Chats = record {
        buckets = (k, msg ∷ []) ∷ [];
        loaded_buckets = [];
        storage = put key (msg ∷ []) storage;
      } in
      let at : lookup k t.buckets ≡ some (msg ∷ []) =
        unfold lookup in ground (arith, str_beq_iff k k) in
      let (same, kept) =
        open_known stored_bytes time_of account settings d.signing_pubkey d.chat_id t msg [] at in
      rw (take_in_first storage h) (
        ap (lookup key) kept
            ∙ ground (arith, lookup-put key key (msg ∷ []) storage, str_beq_iff key key),
        ap (λ b. list_of (lookup k b)) same ∙ ap list_of at,
      )

-- ===== src/Messages/Sending/Missing.antt =====
-- A message whose bundling message is gone does not enter the sender's chats.
use cordia.Base.{
  All, All-append, All-drop, All-keep, All-put, List, Option, Str, [], any, arith, contains, drop,
  false, lookup, map, nat_eq, put, put_all, refl, some, sort_by-All, str_eq, subst, sym, true,
  truthy, ℕ, ◌++◌, ◌∷◌, ◌≡◌,
}
use cordia.Messages.{AttachmentMeta, mixed, ChatMessage, MessageBuckets}
use cordia.Messages.Buckets.{bucket_key, list_of, is_message, replace_message_by_id}
use cordia.Messages.Incoming.{Payload, many}
use cordia.Messages.Sending.{
  Sender, Address, local_message, relay, echo_placed, place, send_files, send_mixed_message,
  text_or_empty,
}
use cordia.Settings.{MessageStorageSettings}
use cordia.Messages.Sending.Arrival.{sent}
use cordia.Messages.Sending.Bundling.{IsNew, not_replaced, lookup-IsNew}
use cordia.Messages.Storage.{Chats, ensure_bucket_loaded}
use cordia.Messages.Prune.{
  Entry, entries, push_entry, group_onto, server_entries, fit, prune_buckets,
}
use cordia.Messages.Prune.Cut.{fit-IsCutTo, IsCutTo}

-- No entry is a message of this id.
abbrev AreNew : Str → List Entry → Type 0
AreNew id es = All (λ e. is_message id e.message ≡ false) es

any-append :
    (id : Str) (l l' : List ChatMessage)
    → any (is_message id) l ≡ false
    → any (is_message id) l' ≡ false
    → any (is_message id) (l ++ l') ≡ false
any-append id [] l' h h' = h'
any-append id (m ∷ l) l' h h' = ground (arith, any-append id l l', h, h')

map_entry-AreNew :
    (id k : Str) (l : List ChatMessage)
    → any (is_message id) l ≡ false
    → AreNew id (map (λ m. record { bucket = k; message = m }) l)
map_entry-AreNew id k [] h = tt
map_entry-AreNew id k (m ∷ l) h = ground (arith, map_entry-AreNew id k l, h)

entries-AreNew :
    (id : Str) (buckets : MessageBuckets) → IsNew id buckets → AreNew id (entries buckets)
unfolding entries
entries-AreNew id [] h = tt
entries-AreNew id ((k, l) ∷ buckets) h =
    All-append (λ e. is_message id e.message ≡ false) _ _ (map_entry-AreNew id k l h.0)
      (entries-AreNew id buckets h.1)

put-IsNew :
    (id k : Str) (l : List ChatMessage) (buckets : MessageBuckets)
    → any (is_message id) l ≡ false
    → IsNew id buckets
    → IsNew id (put k l buckets)
put-IsNew id k l buckets h n = All-put (λ l. any (is_message id) l ≡ false) k l buckets h n

group_onto-IsNew :
    (id : Str) (candidate : MessageBuckets) (es : List Entry)
    → IsNew id candidate
    → AreNew id es
    → IsNew id (group_onto candidate es)
unfolding group_onto push_entry
group_onto-IsNew id candidate [] n h = n
group_onto-IsNew id candidate (e ∷ es) n h =
    group_onto-IsNew id (push_entry e candidate) es
      (put-IsNew id e.bucket _ candidate
        (any-append id (list_of (lookup e.bucket candidate)) (e.message ∷ [])
          (lookup-IsNew e.bucket id candidate n) (ground (arith, h.0)))
        n)
      h.1

put_all-IsNew :
    (id : Str) (m new : MessageBuckets) → IsNew id m → IsNew id new → IsNew id (put_all m new)
put_all-IsNew id m [] h n = h
put_all-IsNew id m ((k, l) ∷ new) h n =
    put_all-IsNew id (put k l m) new (put-IsNew id k l m n.0 h) n.1

module _ (stored_bytes : MessageBuckets → ℕ) (time_of : Str → ℕ) (id : Str) where
  fit-IsNew : (limit : ℕ) (es : List Entry) → AreNew id es → IsNew id (fit stored_bytes limit es)
  unfolding IsCutTo
  fit-IsNew limit es h =
      let (n, cut, same) = fit-IsCutTo stored_bytes limit es in
      subst (IsNew id) (sym same) (
        group_onto-IsNew id [] (drop n es) tt
          (All-drop (λ e. is_message id e.message ≡ false) n es h))

  prune_buckets-IsNew :
      (mb : ℕ) (pk : Str) (buckets : MessageBuckets)
      → IsNew id buckets
      → IsNew id (prune_buckets stored_bytes time_of buckets mb pk)
  unfolding prune_buckets server_entries
  prune_buckets-IsNew mb pk buckets h =
      put_all-IsNew id _ _ (All-keep (λ b. any (is_message id) b.1 ≡ false) _ buckets h) (
        fit-IsNew _ _ (
          sort_by-All (λ e. time_of e.message.sent_at) (λ e. is_message id e.message ≡ false) _
            (entries-AreNew id _ (All-keep (λ b. any (is_message id) b.1 ≡ false) _ buckets h))))

place-IsNew :
    (stored_bytes : MessageBuckets → ℕ) (time_of : Str → ℕ) (account : Str)
    (settings : Str → MessageStorageSettings) (id : Str) (to : Address) (msg : ChatMessage)
    (prev : MessageBuckets)
    → truthy id ≡ true
    → IsNew id prev
    → IsNew id (place stored_bytes time_of account settings (some id) to msg prev)
unfolding place replace_message_by_id
place-IsNew sb tf account settings id to msg prev full new =
    let k = bucket_key to.signing_pubkey to.chat_id in
    let list = list_of (lookup k prev) in
    let none_here = lookup-IsNew k id prev new in
    rw (full, not_replaced id msg list none_here) (put-IsNew id k list prev none_here new)

ensure_loaded :
    (stored_bytes : MessageBuckets → ℕ) (time_of : Str → ℕ) (account : Str)
    (settings : Str → MessageStorageSettings) (pk chat : Str) (s : Chats)
    → contains s.loaded_buckets (bucket_key pk chat) ≡ true
    → ensure_bucket_loaded stored_bytes time_of account settings pk chat s ≡ s
unfolding ensure_bucket_loaded
ensure_loaded sb tf account settings pk chat s h = ground (arith, h)

-- When the bundling message is no longer in the sender's loaded chats as its files are sent, the
-- message goes out to the others, once, under its id; and after all of the send no chat of the sender
-- in memory has a message of this id.
pub send_mixed_message-missing :
    (encrypt : Str → Payload → Option Str) (stored_bytes : MessageBuckets → ℕ) (time_of : Str → ℕ)
    (account : Str) (settings : Str → MessageStorageSettings) (to : Address)
    (id fresh sent_at c : Str) (a : AttachmentMeta) (files : List AttachmentMeta)
    (body : Option Str) (s : Sender)
    → truthy id ≡ true
    → encrypt to.server_id
        (record { kind = many (a ∷ files) (text_or_empty body); sent_at = sent_at })
      ≡ some c
    → contains s.chats.loaded_buckets (bucket_key to.signing_pubkey to.chat_id) ≡ true
    → IsNew id s.chats.buckets
    → let t =
        send_mixed_message stored_bytes time_of account settings encrypt
          (some id)
          to
          fresh
          sent_at
          (a ∷ files)
          body
          s in
      (t.relayed ≡ sent to id c ∷ s.relayed) × IsNew id t.chats.buckets
unfolding send_mixed_message send_files echo_placed relay
send_mixed_message-missing encrypt sb tf account settings to id fresh sent_at c a files body s full
      out loaded new =
    let msg = local_message to id sent_at (text_or_empty body) (mixed (a ∷ files)) c in
    let placed = place-IsNew sb tf account settings id to msg s.chats.buckets full new in
    let buckets =
      prune_buckets sb tf (place sb tf account settings (some id) to msg s.chats.buckets)
        (settings to.signing_pubkey).max_storage_mb to.signing_pubkey in
    let before : Chats = record s.chats { buckets = buckets } in
    (
      rw out refl,
      rw (out, ensure_loaded sb tf account settings to.signing_pubkey to.chat_id before loaded)
          (prune_buckets-IsNew sb tf id (settings to.signing_pubkey).max_storage_mb
            to.signing_pubkey _ placed),
    )

-- ===== src/Messages/Buckets.antt =====
-- The buckets of src/contexts/EphemeralMessagesContext.tsx: a list of messages for each server and
-- chat, with appendMessage, replaceMessageById, updateBundlingProgressById and the message receipts.
pub mod Receipts
use cordia.Base.{
  Bool, List, Option, Str, [], any, contains, if◌then◌else◌, lookup, map, nat_eq, none, not, put,
  some, str_eq, truthy, units, ℕ, ◌&&◌, ◌++◌, ◌==◌, ◌∷◌,
}
use cordia.Messages.{ChatMessage, MessageBuckets, DeliveryStatus, delivered}

unfoldable pub bucket_key : Str → Str → Str
bucket_key signing_pubkey chat_id = signing_pubkey ++ (units "::" ++ chat_id)

-- buckets[key] ?? []
abbrev pub list_of : Option (List ChatMessage) → List ChatMessage
list_of none = []
list_of (some list) = list

unfoldable pub append_message : MessageBuckets → Str → Str → ChatMessage → MessageBuckets
append_message prev signing_pubkey chat_id msg =
    let key = bucket_key signing_pubkey chat_id in
    put key (list_of (lookup key prev) ++ msg ∷ []) prev

abbrev pub is_message : Str → ChatMessage → Bool
is_message id m = m.id == id

unfoldable pub replace_message_by_id :
    MessageBuckets → Str → Str → Str → ChatMessage → MessageBuckets
replace_message_by_id prev signing_pubkey chat_id id replacement =
    let key = bucket_key signing_pubkey chat_id in
    put key (map (λ m. if is_message id m then replacement else m) (list_of (lookup key prev))) prev

-- next[idx] = { ...next[idx], bundling_progress: percent }
unfoldable pub set_progress : Str → ℕ → List ChatMessage → List ChatMessage
set_progress id percent [] = []
set_progress id percent (m ∷ ms) =
    if is_message id m
    then record m { bundling_progress = some percent } ∷ ms
    else m ∷ set_progress id percent ms

-- Only the first bucket that has the message changes.
unfoldable pub update_bundling_progress_by_id : MessageBuckets → Str → ℕ → MessageBuckets
update_bundling_progress_by_id [] id percent = []
update_bundling_progress_by_id ((key, list) ∷ prev) id percent =
    if any (is_message id) list
    then (key, set_progress id percent list) ∷ prev
    else (key, list) ∷ update_bundling_progress_by_id prev id percent

pub record IncomingReceipt : Type 0 where
  pub signing_pubkey : Str
  pub chat_id : Str
  pub message_id : Str
  pub from_user_id : Str
  pub receipt_type : Str

abbrev pub readers : ChatMessage → List Str
readers m = elim m.delivered_by [ none ↦ [] | some users ↦ users ]

-- The receipt is about `m` and names a new reader.
abbrev pub is_news : IncomingReceipt → ChatMessage → Bool
is_news r m = is_message r.message_id m && not (contains (readers m) r.from_user_id)

unfoldable pub acknowledge : IncomingReceipt → ChatMessage → ChatMessage
acknowledge r m =
    if is_news r m
    then record m {
      delivered_by = some (readers m ++ r.from_user_id ∷ []);
      delivery_status = some delivered;
    }
    else m

unfoldable pub is_receipt : IncomingReceipt → Bool
is_receipt r =
    truthy r.signing_pubkey
    && truthy r.chat_id
    && truthy r.message_id
    && truthy r.from_user_id
    && r.receipt_type == units "delivered"

receipt_in : IncomingReceipt → MessageBuckets → Option (List ChatMessage) → MessageBuckets
receipt_in r prev none = prev
receipt_in r prev (some list) =
    if any (is_news r) list
    then put (bucket_key r.signing_pubkey r.chat_id) (map (acknowledge r) list) prev
    else prev

-- The handler of `cordia:ephemeral-receipt-incoming`.
unfoldable pub on_receipt : IncomingReceipt → MessageBuckets → MessageBuckets
unfolding receipt_in
on_receipt r prev =
    if is_receipt r
    then receipt_in r prev (lookup (bucket_key r.signing_pubkey r.chat_id) prev)
    else prev

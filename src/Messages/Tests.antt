-- ===== src/Messages/Tests.antt =====
-- Concrete runs of the chat messages.
use cordia.Base.{
  Dict, List, Str, [], false, insert_by, length, lookup, nat_eq, none, put, refl, some, sort_by,
  str_eq, true, units, ℕ, ◌*◌, ◌+◌, ◌∷◌, ◌≡◌, ◌≤◌,
}
use cordia.Messages.{ChatMessage, MessageBuckets, text, pending}
use cordia.Messages.Buckets.{IncomingReceipt, is_receipt}
use cordia.Messages.Prune.{
  is_of_server, entries, push_entry, group_onto, shrink, fit, server_entries, prune_buckets,
}
use cordia.Messages.Prune.Cut.{IsPruned, prune_buckets-IsPruned}
use cordia.Messages.Incoming.{Inbox, IncomingChat}
use cordia.Messages.Outbox.{Pending, max_budget_bytes, tick}
use cordia.Messages.Outbox.Budget.{charged_to, tick-within_budget}

abbrev note : Str → Str → ChatMessage
note id sent_at = record {
  id = id;
  signing_pubkey = units "k";
  chat_id = units "c";
  from_user_id = units "ann";
  body = units "hello";
  content = text;
  sent_at = sent_at;
  local_only = false;
  delivery_status = some pending;
  delivered_by = none;
  bundling_progress = none;
  encrypted_payload = none;
}

abbrev notes : MessageBuckets
notes =
    (units "k::c", note (units "2") (units "b") ∷ note (units "1") (units "a") ∷ [])
    ∷ (units "l::c", note (units "3") (units "c") ∷ [])
    ∷ []

abbrev receipt : IncomingReceipt
receipt = record {
  signing_pubkey = units "k";
  chat_id = units "c";
  message_id = units "1";
  from_user_id = units "bob";
  receipt_type = units "delivered";
}

is_receipt-receipt : is_receipt receipt ≡ true
unfolding is_receipt
is_receipt-receipt = refl

-- Each message takes 600 kilobytes.
abbrev weigh : MessageBuckets → ℕ
weigh [] = 2
weigh ((k, list) ∷ buckets) = length list * 600000 + weigh buckets

-- The first character tells the time.
abbrev time_of : Str → ℕ
time_of [] = 0
time_of (c ∷ s) = c

-- One megabyte holds one of the two messages, the newer one; the other server's stays.
prune_two :
    prune_buckets weigh time_of notes 1 (units "k")
    ≡ (units "l::c", note (units "3") (units "c") ∷ [])
      ∷ (units "k::c", note (units "2") (units "b") ∷ [])
      ∷ []
unfolding prune_buckets fit shrink server_entries entries group_onto push_entry is_of_server sort_by
    insert_by lookup put
prune_two = refl

prune_buckets-IsPruned_example :
    IsPruned weigh time_of 1 (units "k") notes (prune_buckets weigh time_of notes 1 (units "k"))
prune_buckets-IsPruned_example = prune_buckets-IsPruned weigh time_of notes 1 (units "k")

abbrev inbox : Inbox
inbox = record {
  buckets = notes;
  unread_count_by_server = (units "s", 4) ∷ [];
  last_seen_at_by_server = [];
  server_ids = (units "k", units "s") ∷ [];
  active = units "l";
  transfers = [];
  history = [];
}

abbrev incoming : IncomingChat
incoming = record {
  signing_pubkey = units "k";
  chat_id = units "c";
  message_id = units "1";
  from_user_id = units "ann";
  encrypted_payload = units "x";
  sent_at = units "a";
}

abbrev waiting : Dict Str (List Pending)
waiting =
    (
      units "k::c",
      record { message = note (units "2") (units "b"); cached_estimate = 0 }
          ∷ record { message = note (units "1") (units "a"); cached_estimate = 0 }
          ∷ [],
    )
    ∷ []

tick-within_budget_example :
    charged_to
      (units "k")
      (tick (λ _. 20000) (λ _ m. some m.body) (λ _. 10) time_of (units "ann") waiting).sends
    ≤ max_budget_bytes (λ _. 10) (units "k")
tick-within_budget_example =
    tick-within_budget (λ _. 20000) (λ _ m. some m.body) (λ _. 10) time_of (units "ann") waiting
      (units "k")

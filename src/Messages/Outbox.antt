-- ===== src/Messages/Outbox.antt =====
-- The retries of src/contexts/EphemeralMessagesContext.tsx: every few seconds the user's pending
-- messages are sent again, the oldest first, within a byte budget for each server. The size of the
-- JSON text is the parameter `payload_bytes`, and `encrypt` is the native encryption.
pub mod Budget
use cordia.Base.{
  Bool, Dict, List, Option, Str, [], eqb, false, flat, if◌then◌else◌, keep, length, lookup, ltb,
  max, nat_eq, none, put, some, sort_by, str_eq, true, ℕ, ◌&&◌, ◌*◌, ◌+◌, ◌==◌, ◌∷◌,
}
use cordia.Messages.{ChatMessage, MessageBuckets, DeliveryStatus, pending}

abbrev pub is_pending : Option DeliveryStatus → Bool
is_pending (some pending) = true
is_pending _ = false

-- A message with its `_cached_estimate`, 0 where it has none.
pub record Pending : Type 0 where
  pub message : ChatMessage
  pub cached_estimate : ℕ

-- A send of this tick, with the bytes that it was charged.
pub record Send : Type 0 where
  pub signing_pubkey : Str
  pub message_id : Str
  pub encrypted_payload : Str
  pub charged : ℕ

abbrev pub spent_on : Option ℕ → ℕ
spent_on none = 0
spent_on (some n) = n

-- An empty text is no payload.
abbrev pub cached_payload : Option Str → Option Str
cached_payload none = none
cached_payload (some []) = none
cached_payload (some (c ∷ s)) = some (c ∷ s)

-- The last send comes first; `used` is `budgetUsedBySigning`.
pub record Tick : Type 0 where
  pub used : Dict Str ℕ
  pub sends : List Send

unfoldable pub max_budget_bytes : (Str → ℕ) → Str → ℕ
max_budget_bytes max_sync_kb signing_pubkey = max 32 (max_sync_kb signing_pubkey) * 1024

unfoldable pub estimate : (ChatMessage → ℕ) → Pending → ℕ
estimate payload_bytes p = elim (cached_payload p.message.encrypted_payload) [
  | none ↦ if eqb p.cached_estimate 0 then payload_bytes p.message + 128 else p.cached_estimate
  | some payload ↦ length payload
]

-- The payload that was encrypted before, or a new one.
unfoldable pub payload_for : (Str → ChatMessage → Option Str) → Pending → Option Str
payload_for encrypt p = elim (cached_payload p.message.encrypted_payload) [
  | none ↦ encrypt p.message.signing_pubkey p.message
  | some payload ↦ some payload
]

module _ (payload_bytes : ChatMessage → ℕ) (encrypt : Str → ChatMessage → Option Str)
    (max_sync_kb : Str → ℕ) where
  unfoldable pub charge : Pending → Str → Tick → Tick
  charge p payload t =
      let pk = p.message.signing_pubkey in
      record {
        used = put pk (spent_on (lookup pk t.used) + estimate payload_bytes p) t.used;
        sends =
            record {
              signing_pubkey = pk;
              message_id = p.message.id;
              encrypted_payload = payload;
              charged = estimate payload_bytes p;
            }
            ∷ t.sends;
      }

  -- One round of the loop; each `continue` leaves the tick as it is.
  unfoldable pub retry : Pending → Tick → Tick
  retry p t =
      let pk = p.message.signing_pubkey in
      if ltb (max_budget_bytes max_sync_kb pk)
        (spent_on (lookup pk t.used) + estimate payload_bytes p)
      then t
      else elim (payload_for encrypt p) [ none ↦ t | some payload ↦ charge p payload t ]

  unfoldable pub retry_all : List Pending → Tick → Tick
  retry_all [] t = t
  retry_all (p ∷ ps) t = retry_all ps (retry p t)

  -- A tick, for the user `me`.
  unfoldable pub tick : (Str → ℕ) → Str → Dict Str (List Pending) → Tick
  tick time_of me buckets =
      retry_all
        (sort_by (λ p. time_of p.message.sent_at)
          (keep (λ p. p.message.from_user_id == me && is_pending p.message.delivery_status)
            (flat buckets)))
        (record { used = []; sends = [] })

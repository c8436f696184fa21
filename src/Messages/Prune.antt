-- ===== src/Messages/Prune.antt =====
-- pruneBuckets of src/contexts/EphemeralMessagesContext.tsx: the messages of one server are cut,
-- the oldest first, until they fit the server's storage limit. What `JSON.stringify` and
-- `TextEncoder` make of the buckets is the parameter `stored_bytes`, and `Date.parse` is `time_of`,
-- on dates that it accepts.
pub mod Group
pub mod Cut
pub mod Keys
use cordia.Base.{
  Bool, List, Str, [], false, if◌then◌else◌, keep_keys, leb, lookup, ltb, map, nat_eq, not, put,
  put_all, sort_by, str_eq, true, units, ℕ, ◌&&◌, ◌*◌, ◌++◌, ◌==◌, ◌∷◌,
}
use cordia.Messages.{ChatMessage, MessageBuckets}
use cordia.Messages.Buckets.{list_of, append_message}

-- A pair { k, m } of `serverEntries`.
pub record Entry : Type 0 where
  pub bucket : Str
  pub message : ChatMessage

-- s.startsWith(prefix)
abbrev pub starts_with : Str → Str → Bool
starts_with [] s = true
starts_with (c ∷ prefix) [] = false
starts_with (c ∷ prefix) (d ∷ s) = c == d && starts_with prefix s

unfoldable pub is_of_server : Str → Str → Bool
is_of_server signing_pubkey key = starts_with (signing_pubkey ++ units "::") key

unfoldable pub entries : MessageBuckets → List Entry
entries [] = []
entries ((k, list) ∷ buckets) =
    map (λ m. record { bucket = k; message = m }) list ++ entries buckets

-- candidate[k].push(m), where a missing list is made first
unfoldable pub push_entry : Entry → MessageBuckets → MessageBuckets
push_entry e candidate =
    put e.bucket (list_of (lookup e.bucket candidate) ++ e.message ∷ []) candidate

unfoldable pub group_onto : MessageBuckets → List Entry → MessageBuckets
group_onto candidate [] = candidate
group_onto candidate (e ∷ es) = group_onto (push_entry e candidate) es

abbrev pub group : List Entry → MessageBuckets
group es = group_onto [] es

module _ (stored_bytes : MessageBuckets → ℕ) where
  -- The `while` loop: drops the first entry until the rest fits.
  unfoldable pub shrink : ℕ → List Entry → MessageBuckets
  shrink max_bytes [] = []
  shrink max_bytes (e ∷ kept) =
      let rest = shrink max_bytes kept in
      if leb (stored_bytes (group kept)) max_bytes then group kept else rest

  unfoldable pub fit : ℕ → List Entry → MessageBuckets
  fit max_bytes kept =
      if ltb max_bytes (stored_bytes (group kept)) then shrink max_bytes kept else group kept

-- The server's entries by time; equal times keep their order.
unfoldable pub server_entries : (Str → ℕ) → MessageBuckets → Str → List Entry
server_entries time_of buckets signing_pubkey =
    sort_by (λ e. time_of e.message.sent_at)
      (entries (keep_keys (is_of_server signing_pubkey) buckets))

module _ (stored_bytes : MessageBuckets → ℕ) (time_of : Str → ℕ) where
  unfoldable pub prune_buckets : MessageBuckets → ℕ → Str → MessageBuckets
  prune_buckets buckets max_storage_mb signing_pubkey =
      put_all (keep_keys (λ k. not (is_of_server signing_pubkey k)) buckets) (
        fit stored_bytes (max_storage_mb * 1024 * 1024)
          (server_entries time_of buckets signing_pubkey))

  -- appendAndPruneBySigning
  unfoldable pub append_and_prune : MessageBuckets → ℕ → Str → Str → ChatMessage → MessageBuckets
  append_and_prune prev max_storage_mb signing_pubkey chat_id msg =
      prune_buckets (append_message prev signing_pubkey chat_id msg) max_storage_mb signing_pubkey

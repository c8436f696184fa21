-- ===== src/Transfers/Rows.antt =====
-- The rows of src/contexts/EphemeralMessagesContext.tsx: AttachmentTransferState and
-- TransferHistoryEntry, with `upsertTransfer` and `upsertHistory`. Progress, speeds and times of the
-- rows are doubles and texts for display, and left out.
pub mod Unique
pub mod Upsert
use cordia.Base.{
  Bool, List, Option, Str, [], any, false, find, if◌then◌else◌, keep, nat_eq, none, not, some,
  str_eq, take, true, ℕ, ◌++◌, ◌==◌, ◌∷◌,
}

pub data Direction : Type 0 where
  upload download : Direction

pub data Status : Type 0 where
  queued requesting connecting transferring completed rejected failed : Status

pub record Transfer : Type 0 where
  pub request_id : Str
  pub message_id : Str
  pub attachment_id : Str
  pub from_user_id : Str
  pub to_user_id : Str
  pub file_name : Str
  pub direction : Direction
  pub status : Status
  pub saved_path : Option Str
  pub error : Option Str
  pub sha256 : Option Str
  pub server_signing_pubkey : Option Str

pub record HistoryEntry : Type 0 where
  pub request_id : Str
  pub message_id : Str
  pub attachment_id : Str
  pub file_name : Str
  pub size_bytes : Option ℕ
  pub from_user_id : Str
  pub to_user_id : Str
  pub direction : Direction
  pub status : Status
  pub saved_path : Option Str
  pub is_inaccessible : Bool
  pub server_signing_pubkey : Option Str

abbrev pub is_download : Direction → Bool
is_download download = true
is_download upload = false

-- requesting, connecting or transferring
abbrev pub is_active : Status → Bool
is_active requesting = true
is_active connecting = true
is_active transferring = true
is_active _ = false

-- completed, failed or rejected
abbrev pub is_terminal : Status → Bool
is_terminal completed = true
is_terminal failed = true
is_terminal rejected = true
is_terminal _ = false

module _ {ℓ} {A : Type ℓ} where
  -- next[idx] = f(prev[idx]) at the first row that passes
  unfoldable pub update_first : (A → Bool) → (A → A) → List A → List A
  update_first p f [] = []
  update_first p f (x ∷ xs) = if p x then f x ∷ xs else x ∷ update_first p f xs

  -- next.splice(idx, 1)
  pub remove_first : (A → Bool) → List A → List A
  remove_first p [] = []
  remove_first p (x ∷ xs) = if p x then xs else x ∷ remove_first p xs

abbrev pub has_id : Str → Transfer → Bool
has_id id t = t.request_id == id

unfoldable pub upsert_transfer : Str → (Option Transfer → Transfer) → List Transfer → List Transfer
upsert_transfer id f rows =
    if any (has_id id) rows
    then update_first (has_id id) (λ t. f (some t)) rows
    else rows ++ f none ∷ []

abbrev pub max_history : ℕ
max_history = 300

abbrev pub entry_has_id : Str → HistoryEntry → Bool
entry_has_id id h = h.request_id == id

history_new : Option HistoryEntry → List HistoryEntry → List HistoryEntry
history_new none rows = rows
history_new (some h) rows = take max_history (h ∷ rows)

history_old : Str → HistoryEntry → Option HistoryEntry → List HistoryEntry → List HistoryEntry
history_old id old none rows = remove_first (entry_has_id id) rows
history_old id old (some h) rows = update_first (entry_has_id id) (λ _. h) rows

-- The updater sees the row, or nothing, and returns the new row, or nothing.
pub upsert_history :
    Str → (Option HistoryEntry → Option HistoryEntry) → List HistoryEntry → List HistoryEntry
upsert_history id f rows = elim (find (entry_has_id id) rows) [
  | none ↦ history_new (f none) rows
  | some h ↦ history_old id h (f (some h)) rows
]

-- removeTransferHistoryEntry
pub remove_history : Str → List HistoryEntry → List HistoryEntry
remove_history [] rows = rows
remove_history (c ∷ id) rows = keep (λ h. not (entry_has_id (c ∷ id) h)) rows

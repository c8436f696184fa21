-- ===== src/Messages.antt =====
-- The chat messages of src/contexts/EphemeralMessagesContext.tsx: EphemeralAttachmentMeta,
-- EphemeralChatMessage and the buckets that hold them. Aspect ratios, waveforms and covers, which
-- are for display, are left out.
pub mod Buckets
pub mod Prune
pub mod Incoming
pub mod Outbox
pub mod Storage
pub mod Sending
mod Tests
use cordia.Base.{Bool, Dict, List, Option, Str, nat_eq, str_eq, ℕ}

pub record AttachmentMeta : Type 0 where
  pub attachment_id : Str
  pub file_name : Str
  pub extension : Str
  pub size_bytes : ℕ
  pub sha256 : Str
  pub spoiler : Bool
  pub preview_path : Option Str

pub data DeliveryStatus : Type 0 where
  pending delivered bundling : DeliveryStatus

-- `kind`, with what each kind carries.
pub data Content : Type 0 where
  text : Content
  attachment : AttachmentMeta → Content
  mixed : List AttachmentMeta → Content

pub record ChatMessage : Type 0 where
  pub id : Str
  pub signing_pubkey : Str
  pub chat_id : Str
  pub from_user_id : Str
  pub body : Str
  pub content : Content
  pub sent_at : Str
  pub local_only : Bool
  pub delivery_status : Option DeliveryStatus
  pub delivered_by : Option (List Str)
  pub bundling_progress : Option ℕ
  pub encrypted_payload : Option Str

abbrev pub MessageBuckets : Type 0
MessageBuckets = Dict Str (List ChatMessage)

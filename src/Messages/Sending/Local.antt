-- ===== src/Messages/Sending/Local.antt =====
-- What a send is made of in src/contexts/EphemeralMessagesContext.tsx: the address, the sender's
-- own copy of a message, the relayed one, and what is remembered of shared files.
use cordia.Base.{
  Bool, Dict, List, Option, Str, [], false, if◌then◌else◌, nat_eq, none, put, some, str_eq, trim,
  true, truthy, ℕ, ◌&&◌, ◌+◌, ◌∷◌,
}
use cordia.Messages.{AttachmentMeta, Content, mixed, ChatMessage, pending, bundling}
use cordia.Messages.Storage.{Chats}

-- The detail of `cordia:send-ephemeral-chat`.
pub record RelayedChat : Type 0 where
  pub signing_pubkey : Str
  pub chat_id : Str
  pub message_id : Str
  pub encrypted_payload : Str

pub record SharedAttachmentItem : Type 0 where
  pub attachment_id : Str
  pub sha256 : Str
  pub file_path : Option Str

-- `content_cache` is contentCacheBySha.
pub record Sender : Type 0 where
  pub chats : Chats
  pub relayed : List RelayedChat
  pub shared_attachments : List SharedAttachmentItem
  pub content_cache : Dict Str Str

-- Where a message goes, and who sends it.
pub record Address : Type 0 where
  pub server_id : Str
  pub signing_pubkey : Str
  pub chat_id : Str
  pub from_user_id : Str

-- A file that is to be bundled.
pub record StagedFile : Type 0 where
  pub path : Str
  pub file_name : Str
  pub extension : Str
  pub size_bytes : ℕ
  pub spoiler : Bool

unfoldable pub local_message : Address → Str → Str → Str → Content → Str → ChatMessage
local_message to id sent_at body content payload = record {
  id = id;
  signing_pubkey = to.signing_pubkey;
  chat_id = to.chat_id;
  from_user_id = to.from_user_id;
  body = body;
  content = content;
  sent_at = sent_at;
  local_only = true;
  delivery_status = some pending;
  delivered_by = some [];
  bundling_progress = none;
  encrypted_payload = some payload;
}

unfoldable pub relay : Address → Str → Str → Sender → Sender
relay to id payload s = record s {
  relayed =
      record {
        signing_pubkey = to.signing_pubkey;
        chat_id = to.chat_id;
        message_id = id;
        encrypted_payload = payload;
      }
      ∷ s.relayed;
}

abbrev pub text_or_empty : Option Str → Str
text_or_empty none = []
text_or_empty (some s) = trim s

-- replaceMessageId ?? a fresh id
abbrev pub id_or : Option Str → Str → Str
id_or none fresh = fresh
id_or (some id) fresh = id

-- The attachments of a message that is still bundled; `id` makes their ids.
unfoldable pub bundled : (ℕ → Str) → ℕ → List StagedFile → List AttachmentMeta
bundled id i [] = []
bundled id i (f ∷ files) =
    record {
      attachment_id = id i;
      file_name = f.file_name;
      extension = f.extension;
      size_bytes = f.size_bytes;
      sha256 = [];
      spoiler = f.spoiler;
      preview_path = some f.path;
    }
    ∷ bundled id (i + 1) files

unfoldable pub bundling_message :
    (ℕ → Str) → Address → Str → Str → List StagedFile → Option Str → ChatMessage
bundling_message attachment_id to id sent_at staged body = record {
  id = id;
  signing_pubkey = to.signing_pubkey;
  chat_id = to.chat_id;
  from_user_id = to.from_user_id;
  body = text_or_empty body;
  content = mixed (bundled attachment_id 0 staged);
  sent_at = sent_at;
  local_only = true;
  delivery_status = some bundling;
  delivered_by = some [];
  bundling_progress = none;
  encrypted_payload = none;
}

abbrev has_path : Option Str → Bool
has_path none = false
has_path (some path) = truthy path

abbrev path_of : Option Str → Str
path_of none = []
path_of (some path) = path

-- The loop that remembers where shared contents lie.
unfoldable pub remember_paths : List SharedAttachmentItem → Dict Str Str → Dict Str Str
remember_paths [] cache = cache
remember_paths (s ∷ list) cache = remember_paths list (
    if truthy s.sha256 && has_path s.file_path
    then put s.sha256 (path_of s.file_path) cache
    else cache)

-- The answer of listSharedAttachments after a send of files.
unfoldable pub shared_listed : List SharedAttachmentItem → Sender → Sender
shared_listed list s = record s {
  shared_attachments = list;
  content_cache = remember_paths list s.content_cache;
}

-- ===== src/Transfers/Consent/Tests.antt =====
-- Requests for an attachment at an input.
use cordia.Base.{
  Dict, Str, [], false, flat, lookup, nat_eq, none, refl, some, str_eq, true, units, ◌∷◌, ◌≡◌,
}
use cordia.Messages.{ChatMessage, attachment, MessageBuckets}
use cordia.Settings.{persistent, ask, StoredSettings, key_for, as_stored, normalize, get_settings}
use cordia.Transfers.Consent.{SharedFile, Uploads, related_message, asks_first}

-- Settings of the server k that say `ask`
abbrev asking : Dict Str StoredSettings
asking =
    (
      key_for (some (units "a")) (units "k"),
      as_stored (record {
        mode = persistent;
        max_messages_on_open = 500;
        max_storage_mb = 150;
        max_sync_kb = 256;
        attachment_download_allow = ask;
      }),
    )
    ∷ []

abbrev plan : SharedFile
plan = record {
  attachment_id = units "f";
  file_name = units "plan";
  sha256 = units "0";
  size_bytes = 9;
  can_share_now = true;
}

abbrev with_chats : MessageBuckets → Uploads
with_chats buckets = record {
  account = some (units "a");
  user_id = units "ann";
  shared = plan ∷ [];
  buckets = buckets;
  storage = asking;
  transfers = [];
  admission = record { objects = []; next_object = 0; sessions = []; active = []; pending = [] };
  responses = [];
  dialogs = [];
}

-- A message of the server k that carries the file
abbrev carrier : ChatMessage
carrier = record {
  id = units "m";
  signing_pubkey = units "k";
  chat_id = units "c";
  from_user_id = units "ann";
  body = [];
  content = attachment (record {
    attachment_id = units "f";
    file_name = units "plan";
    extension = [];
    size_bytes = 9;
    sha256 = units "0";
    spoiler = false;
    preview_path = none;
  });
  sent_at = units "1";
  local_only = false;
  delivery_status = none;
  delivered_by = none;
  bundling_progress = none;
  encrypted_payload = none;
}

abbrev with_carrier : Uploads
with_carrier = with_chats ((units "kc", carrier ∷ []) ∷ [])

asks_with_carrier :
    asks_first (related_message (units "f") with_carrier.buckets) with_carrier ≡ true
unfolding asks_first related_message flat lookup get_settings normalize key_for as_stored
asks_with_carrier = refl

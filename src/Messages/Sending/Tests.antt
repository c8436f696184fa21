-- ===== src/Messages/Sending/Tests.antt =====
-- Sending at an input.
use cordia.Base.{
  Option, Str, [], false, length, lookup, nat_eq, none, put, refl, some, str_eq, trim, true, truthy,
  units, ℕ, ◌*◌, ◌+◌, ◌∷◌, ◌≡◌,
}
use cordia.Messages.{AttachmentMeta, text, mixed, ChatMessage, MessageBuckets}
use cordia.Messages.Buckets.{
  bucket_key, append_message, replace_message_by_id, update_bundling_progress_by_id, set_progress,
}
use cordia.Messages.Incoming.{Payload, plain, many, Inbox, receive, on_incoming}
use cordia.Messages.Sending.{
  Sender, Address, local_message, place, send_message, send_mixed_message, bundling_message,
  bundled, StagedFile,
}
use cordia.Messages.Sending.Arrival.{Shows, passed_on, sent, as_received, send_message-arrives}
use cordia.Messages.Sending.Bundling.{IsNew, progress_all, replace-bundled}
use cordia.Messages.Sending.Missing.{send_mixed_message-missing}
use cordia.Settings.{MessageStorageSettings, default_settings}

abbrev to_c : Address
to_c = record {
  server_id = units "s";
  signing_pubkey = units "k";
  chat_id = units "c";
  from_user_id = units "ann";
}

abbrev nobody : Sender
nobody = record {
  chats = record { buckets = []; loaded_buckets = []; storage = [] };
  relayed = [];
  shared_attachments = [];
  content_cache = [];
}

abbrev empty_inbox : Inbox
empty_inbox = record {
  buckets = [];
  unread_count_by_server = [];
  last_seen_at_by_server = [];
  server_ids = [];
  active = [];
  transfers = [];
  history = [];
}

abbrev weigh : MessageBuckets → ℕ
weigh [] = 2
weigh ((k, list) ∷ buckets) = length list * 200 + weigh buckets

-- The first character tells the time.
abbrev time_of : Str → ℕ
time_of [] = 0
time_of (c ∷ s) = c

abbrev everywhere : Str → MessageStorageSettings
everywhere pk = default_settings

-- One payload is known, and stands for its text.
abbrev hello : Payload
hello = record { kind = plain (units "hi"); sent_at = units "b" }

abbrev encrypt_to : Payload → Str → Payload → Option Str
encrypt_to p server q = some (units "x")

abbrev decrypt_to : Payload → Str → Str → Option Payload
decrypt_to p pk c = some p

trim_hi : trim (units " hi ") ≡ units "hi"
unfolding trim
trim_hi = refl

abbrev IsOwnText : ChatMessage → Type 0
IsOwnText own =
    Shows weigh time_of (units "me") everywhere to_c (append_message [] (units "k") (units "c") own)
      nobody
      (send_message weigh time_of (units "me") everywhere (encrypt_to hello) to_c (units "1")
        (units "b") (units " hi ") nobody)

send_message-arrives_example :
    ((send_message weigh time_of
        (units "me")
        everywhere
        (encrypt_to hello)
        to_c
        (units "1")
        (units "b")
        (units " hi ")
        nobody).relayed
      ≡ sent to_c (units "1") (units "x") ∷ [])
    × (own : ChatMessage) × IsOwnText own
    × (on_incoming weigh time_of
          (λ pk. 1)
          truthy
          (decrypt_to hello)
          (units "bob")
          (units "c")
          (passed_on (sent to_c (units "1") (units "x")) (units "ann") (units "d"))
          empty_inbox
        ≡ receive weigh time_of
            (λ pk. 1)
            (passed_on (sent to_c (units "1") (units "x")) (units "ann") (units "d"))
            (as_received own)
            empty_inbox)
    × (own ≡ local_message to_c (units "1") (units "b") (trim (units " hi ")) text (units "x"))
unfolding trim
send_message-arrives_example =
    send_message-arrives weigh time_of (units "me") everywhere (λ pk. 1) truthy (encrypt_to hello)
      (decrypt_to hello) to_c (units "1") (units "b") (units " hi ") (units "d") (units "bob")
      (units "c") (units "x") nobody empty_inbox refl (refl, refl) (refl, refl, refl, refl, refl)

abbrev picture : AttachmentMeta
picture = record {
  attachment_id = units "p";
  file_name = units "p.png";
  extension = units "png";
  size_bytes = 9;
  sha256 = units "h";
  spoiler = false;
  preview_path = none;
}

abbrev album : Payload
album = record { kind = many (picture ∷ []) []; sent_at = units "b" }

abbrev IsOwnAlbum : ChatMessage → Type 0
IsOwnAlbum own =
    Shows weigh time_of (units "me") everywhere to_c
      (place weigh time_of (units "me") everywhere none to_c own []) nobody
      (send_mixed_message weigh time_of (units "me") everywhere (encrypt_to album) none to_c
        (units "1") (units "b") (picture ∷ []) none nobody)

abbrev staged : StagedFile
staged = record {
  path = units "/p.png";
  file_name = units "p.png";
  extension = units "png";
  size_bytes = 9;
  spoiler = false;
}

waiting_message : ChatMessage
unfolding bundling_message bundled
waiting_message = bundling_message (λ i. units "b") to_c (units "1") (units "a") (staged ∷ []) none

sent_message : ChatMessage
unfolding local_message
sent_message = local_message to_c (units "1") (units "b") [] (mixed (picture ∷ [])) (units "x")

-- Half done, then done, then sent.
bundle_run :
    replace_message_by_id
      (progress_all
        (50 ∷ 100 ∷ [])
        (units "1")
        (append_message [] (units "k") (units "c") waiting_message))
      (units "k")
      (units "c")
      (units "1")
      sent_message
    ≡ (units "k::c", sent_message ∷ []) ∷ []
unfolding waiting_message progress_all append_message replace_message_by_id
    update_bundling_progress_by_id set_progress bucket_key lookup put
bundle_run = refl

replace-bundled_example :
    replace_message_by_id
      (progress_all
        (50 ∷ 100 ∷ [])
        (units "1")
        (append_message [] (units "k") (units "c") waiting_message))
      (units "k")
      (units "c")
      (units "1")
      sent_message
    ≡ append_message [] (units "k") (units "c") sent_message
unfolding waiting_message
replace-bundled_example =
    replace-bundled (units "k") (units "c") (50 ∷ 100 ∷ []) waiting_message sent_message [] tt

abbrev other_message : ChatMessage
other_message = record {
  id = units "3";
  signing_pubkey = units "k";
  chat_id = units "c";
  from_user_id = units "ann";
  body = units "hello";
  content = text;
  sent_at = units "c";
  local_only = true;
  delivery_status = none;
  delivered_by = none;
  bundling_progress = none;
  encrypted_payload = none;
}

-- The chat is loaded, and another message is all that is left in it.
abbrev cut_short : Sender
cut_short = record nobody {
  chats = record {
    buckets = (units "k::c", other_message ∷ []) ∷ [];
    loaded_buckets = units "k::c" ∷ [];
    storage = [];
  };
}

send_mixed_message-missing_example :
    let t =
      send_mixed_message weigh time_of
        (units "me")
        everywhere
        (encrypt_to album)
        (some (units "1"))
        to_c
        (units "2")
        (units "b")
        (picture ∷ [])
        none
        cut_short in
    (t.relayed ≡ sent to_c (units "1") (units "x") ∷ []) × IsNew (units "1") t.chats.buckets
unfolding bucket_key
send_mixed_message-missing_example =
    send_mixed_message-missing (encrypt_to album) weigh time_of (units "me") everywhere to_c
      (units "1") (units "2") (units "b") (units "x") picture [] none cut_short refl refl refl
      (refl, tt)

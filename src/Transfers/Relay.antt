-- ===== src/Transfers/Relay.antt =====
-- An upload session and a download together: the subscriber's chunks are the messages of the
-- receiver's channel, which keeps their order and loses none.
mod Tests
use mathlib.Core.List.{flatten}
use cordia.Base.{All-get_elem?, List, Str, get_elem?, length, nat_eq, some, str_eq, ℕ, ◌∙◌, ◌≡◌}
use cordia.Transfers.Stream.{Bytes, Event, completed, on_meta, run}
use cordia.Transfers.Stream.Carried.{chunks_of, IsChannel, completed-disk_eq_chunks}
use cordia.Transfers.Upload.{UploadSession, Subscriber, UploadEvent, new_session, upload_run}
use cordia.Transfers.Upload.Faithful.{IsHonest, upload_run-IsFaithful}

-- A transfer copies the file. A session whose reads return the file's bytes has told the `i`th of
-- its finished subscribers `done`, whatever else happened; a download, under any schedule of its own,
-- was brought the chunks that this subscriber was sent, and no chunk after `done`. If the download is
-- reported as completed, it has the file on disk.
pub relay-disk :
    (file : Bytes) (attachment_id file_name sha256 request_id user : Str) (us : List UploadEvent)
    (i : ℕ) (sub : Subscriber) (size : ℕ) (es : List Event)
    → let s = new_session attachment_id file_name sha256 (length file) request_id user in
      IsHonest file us s
      → get_elem? (upload_run us s).finished i ≡ some sub
      → IsChannel es
      → flatten (chunks_of es) ≡ sub.sent
      → (run es (on_meta size)).status ≡ completed
      → (run es (on_meta size)).disk ≡ file
relay-disk file a f h r u us i sub size es honest at ordered carried ended =
    completed-disk_eq_chunks size es ordered ended
    ∙ carried
    ∙ All-get_elem? (λ t. t.sent ≡ file) _ i sub
        (upload_run-IsFaithful file us a f h r u honest).whole at

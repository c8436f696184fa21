-- ===== src/Lib.antt =====
-- Cordia's TypeScript client: a model of its core and what is proved of it.
--
-- The client is a React program around a native process. Its core keeps chat messages that live
-- only on the members' machines, sends their attachments from peer to peer over WebRTC data
-- channels, and keeps the rows that the transfer views show.
--
-- Parts and files (paths from the repository's root):
-- - Base, with Tests, Lists, Maps, Sort and Text below it: helpers that the components share.
--   Text is a list of character codes, a map is an association list.
-- - Transfers.Rows: AttachmentTransferState, TransferHistoryEntry, `upsertTransfer`,
--   `upsertHistory` and `removeTransferHistoryEntry` of
--   src/contexts/EphemeralMessagesContext.tsx.
-- - Transfers.Queue: the download queue there, `activeDownloadCount`, `enqueueDownload`,
--   `tryStartNextQueuedDownload` and `cancelTransferRequest`. The handlers read a copy of the
--   rows that an effect renews after a render; the copy is a field of its own, and `render` a
--   step.
-- - Transfers.Request: `requestAttachmentDownload`, before and after its `await`.
-- - Transfers.Stream: one download, the data channel's `onmessage`, `startDownloadWriter` and
--   `cleanupTransferPeer`. A handler runs to its next `await`; what the environment does next is
--   an event, and a schedule is a list of events in any order. A download in Stream is one whose
--   row Queue counts: its end is `settle` there. Transfers.Stream.WriterLoop has the state and
--   the writer.
-- - Transfers.Upload: one upload session, `getOrCreateUploadSession` and the pump of
--   `startUploadSessionPump` there, whose bytes a download of Stream receives;
--   Transfers.Upload.Session has its state and a round of the pump. Again a schedule is a list of
--   events.
-- - Transfers.Admission: which upload sessions run, `getOrCreateUploadSession`,
--   `removeUploadSubscriber` and the `schedule` of `startUploadSessionPump` there.
--   Transfers.Consent: `onIncomingRequest` there, which asks the settings of Settings, adds a row
--   of Transfers.Rows and a subscriber of Transfers.Admission.
-- - Swarm.Scheduler: src/lib/swarm/pieceScheduler.ts. Swarm.Coordinator:
--   src/lib/swarm/swarmCoordinator.ts, whose answers a request of Transfers.Request awaits.
-- - Messages: the chat messages of src/contexts/EphemeralMessagesContext.tsx. Messages.Buckets
--   has appendMessage, replaceMessageById, updateBundlingProgressById and the receipts;
--   Messages.Prune has pruneBuckets; Messages.Incoming the handler of incoming messages with the
--   unread counts, which prunes through Prune and forgets rejected rows of Transfers.Rows;
--   Messages.Outbox the retries; Messages.Storage what is stored of each chat,
--   ensureBucketLoaded, persistBucketIfNeeded and the effect that stores the buckets;
--   Messages.Sending, with Sending.Local for the messages it makes, the sends, whose copies enter
--   the chats of Storage and whose relayed messages Incoming takes in.
-- - Settings: src/lib/messageSettings.ts, whose storage limit Messages.Prune and whose sync
--   budget Messages.Outbox take as numbers.
-- - Transfers.Relay: an upload session of Transfers.Upload and a download of Transfers.Stream
--   together; the data channel between them keeps the order of the messages and loses none.
-- - People: Profiles is src/contexts/RemoteProfilesContext.tsx, Voice is
--   src/contexts/VoicePresenceContext.tsx, Online is src/contexts/PresenceContext.tsx, and
--   Friends is src/contexts/FriendsContext.tsx: Friends.Actions what the user does,
--   Friends.Handlers what the beacon says, Friends.Schedule all that may happen in any order.
--   What a friend message tells of a profile goes to Profiles. The native list of friends is
--   `add_friend` and `remove_friend` of src-tauri/src/main.rs.
-- - Connection: connectWs of src/components/ServerSyncBootstrap.tsx, one session's WebSockets to
--   the beacon with the reconnect timers and the queue of outbound messages. What
--   Messages.Sending and Messages.Outbox hand to the beacon goes through `send_out` there.
-- - Calls: voice calls, src/contexts/WebRTCContext.tsx. Calls.Recovery has the ICE recovery with
--   its timers, Calls.Signaling the messages of the beacon with joining and leaving,
--   Calls.Schedule all that may happen; a handler that waits at an `await` is a job that an event
--   resumes. Calls.Swap is the change of the input device, from one await to the next, with peers
--   that join and leave meanwhile. Who is in which room is People.Voice.
--
-- Numbers and bounds: sizes and counts are natural numbers, within the integers that a double
-- holds. An index that a caller may pass out of range is an integer (`ℤ` of Swarm.Scheduler). The
-- loops of the source are recursions on their list or their count; no definition runs on fuel.
-- The writer's loop has no bound of its own: it is a sequence of `round` and `written` events,
-- and a theorem tells how many suffice.
--
-- What the code takes from outside is a parameter: the size of the JSON text, `Date.parse` on
-- dates that it accepts, decryption with the JSON parser, encryption, and the answer of the
-- swarm.
--
-- Not modelled: views and drawing, Web Audio, the native process and the beacon server (both
-- Rust), and the RTCPeerConnection itself. Progress, speeds and time stamps of rows are for
-- display and left out.
pub mod Base
pub mod Calls
pub mod Connection
pub mod Messages
pub mod People
pub mod Settings
pub mod Swarm
pub mod Transfers

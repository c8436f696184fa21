-- ===== src/Transfers.antt =====
-- Attachment transfers: the download and upload parts of src/contexts/EphemeralMessagesContext.tsx.
pub mod Stream
pub mod Upload
pub mod Relay
pub mod Rows
pub mod Queue
pub mod Admission
pub mod Consent
pub mod Request
mod Tests

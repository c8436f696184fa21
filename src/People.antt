-- ===== src/People.antt =====
-- What the client knows of other users: their profiles, who is online, who is in a voice chat, and
-- who is a friend.
pub mod Profiles
pub mod Voice
pub mod Online
pub mod Friends
mod Tests

-- ===== src/Method.antt =====
-- handlers/method/: one module for each file of handlers, over the state of `Server`.
pub mod Users
pub mod Login
pub mod Prekeys
pub mod Delete
pub mod Relay
pub mod SyncBlob
pub mod Message
pub mod Recovery
mod Tests
pub mod Samples
pub mod Register
pub mod Inbox
pub mod Contact
pub mod Respond
pub mod Updates
pub mod Friends
pub mod Lookup
pub mod Keeps

-- ===== src/Client.antt =====
-- internal/headlessclient: a client with a durable local log of each conversation.
pub mod State
pub mod Apply
pub mod Session
pub mod Sync
mod Tests

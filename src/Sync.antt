-- ===== src/Sync.antt =====
-- conversation_sync.go and sync_ack.go: what a device reads of its conversations, and what it
-- acknowledges.
pub mod Request
pub mod Page
pub mod Window
pub mod Contiguous
pub mod Ack
mod Tests

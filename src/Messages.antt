-- ===== src/Messages.antt =====
-- message_service.go, message_store.go and message_handler.go: sending a message.
pub mod Database
pub mod Store
pub mod Command
pub mod Service
pub mod Consistency
pub mod Outcome
pub mod Retry
pub mod Samples
mod Tests

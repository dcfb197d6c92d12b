-- ===== src/Outbox.antt =====
-- outbox.go: the outbox worker over the table outbox_events.
pub mod Types
pub mod Backoff
pub mod Claim
pub mod Mark
pub mod Deliver
pub mod Run
pub mod Cleanup
pub mod Lifecycle
mod Samples
mod Tests
mod TableTests
mod RunTests

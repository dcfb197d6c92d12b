-- ===== src/Realtime.antt =====
-- websocket.go, realtime_router.go and redis_presence.go: delivery to connected clients.
pub mod Payload
mod Tests

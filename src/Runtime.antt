-- ===== src/Runtime.antt =====
-- The companion's runtime: runtime/chat-write-coordinator.js and runtime/runtime-operation-tracker.js.
pub mod Coordinator
pub mod Tracker

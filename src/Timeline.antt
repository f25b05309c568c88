-- ===== src/Timeline.antt =====
-- Package tl (timeline/): what the watcher emits, what storage persists and the API serves.
pub mod Enum
pub mod Status
pub mod Event
pub mod Derive

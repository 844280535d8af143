-- ===== src/Stream.antt =====
-- internal/store/stream.go: durable event streams held in memory (no page source behind the store, no
-- cancelled context). Chunks are never changed once linked and the outer maps are copied before a
-- store's first write, so a store is a value.
pub mod Value
pub mod Chunk
pub mod NameMap
pub mod Names
pub mod Log
mod Tests

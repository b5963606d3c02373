-- ===== src/Malloc.antt =====
-- The allocator of tp1-malloc/malloc/malloc.c, by parts.
mod Tests
pub mod State
pub mod Search
pub mod Regions
pub mod Blocks
pub mod Api
pub mod Realloc

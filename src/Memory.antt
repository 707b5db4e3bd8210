-- ===== src/Memory.antt =====
-- src/memory: the allocators.
pub mod Pool
pub mod Arena
pub mod Tests

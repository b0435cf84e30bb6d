-- ===== src/Memory.antt =====
-- src/memory/: arenas, slabs and the node-aware memory pool.
pub mod Os
pub mod Arena
pub mod Slab
pub mod Pool
mod Tests

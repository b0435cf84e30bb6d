-- ===== src/Structs.antt =====
-- src/structs/: the containers.
pub mod Ring
pub mod Deque
pub mod HashTable
pub mod SkipList

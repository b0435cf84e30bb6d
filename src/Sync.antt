-- ===== src/Sync.antt =====
-- src/sync: the locks and the partitioned counter.
pub mod Threads
pub mod Ticket
pub mod Mcs
pub mod Rws
pub mod PCounter
mod Tests

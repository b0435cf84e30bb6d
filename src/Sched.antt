-- ===== src/Sched.antt =====
-- src/init.c and src/sched: the context of the library, its mailboxes, the balancers.
pub mod Context
pub mod Messaging
pub mod Setup
pub mod Balancer
pub mod AutoBalancer
pub mod TaskPool
mod Tests

-- ===== src/Lib.antt =====
-- numakit is a C library for machines with several memory nodes. Its parts: arenas take huge pages
-- from the kernel on one node (memory/arena); slabs cut an arena into equal blocks and keep the
-- free ones in a ring (memory/slab); the pool has slabs of ten sizes on every node (memory/pool);
-- the ring buffer, the work-stealing deque, the hash table and the skip list hold pointers
-- (structs); locks and a partitioned counter (sync); the context with one mailbox per node (init),
-- messages between nodes, a pool of tasks with work stealing, and two balancers (sched).
--
-- Memory.Os: malloc, mmap, numa_alloc_onnode, mbind and madvise are a record of functions, the
-- parameter of everything that allocates; what is live is a list of resources that a call extends
-- and a release shortens.
-- Memory.Arena (src/memory/arena.c), Memory.Slab (src/memory/slab.c), Memory.Pool
-- (src/memory/pool.c): one function for each nkit_ function, named without its prefix, on a record
-- for its struct; a pool names a slab by node and class instead of by pointer.
-- Structs.Ring (include/numakit/structs/ring_buffer.h, src/structs/ring_buffer.c): push and pop as
-- loops over rounds; a list of booleans says in which rounds the weak compare-exchange is let
-- through, and its end is the only way for a loop not to return.
-- Structs.Deque (src/structs/deque.c): push, pop and steal one call after the other, with growth.
-- Structs.HashTable (src/structs/hash_table.c): Robin Hood probing in one thread; loops have fuel,
-- and one more than the number of buckets is enough for a lookup and a removal, twice the number
-- for a put that may grow the table. Tidy says what a table keeps, Round, Place and Insert are
-- about an insertion, Grow and Resize about growth, Hole, Shift and Clear about the entries that a
-- removal shifts back.
-- Structs.SkipList (src/structs/skip_list.c): nodes by their addresses in a function, a shard as a
-- record; a pointer is a number, and NULL is 0; SkipList.Shards has the operations. Fuel bounds the
-- walk along a level, and one more than the number of nodes is enough. The random numbers are a
-- parameter. Chain says that a level threads the nodes that are high enough, Sorted what the list
-- of a shard is, Search is about the search, Relink, Link, Fresh and Thread about a new node,
-- Unlink and Without about one that goes.
-- Sync.Ticket (src/sync/ticket_lock.c), Sync.Rws (src/sync/rws_lock.c): threads as numbers, a state
-- of shared words and of the place of each thread in the code, and a step relation with one atomic
-- access per step, under sequential consistency. Sync.Mcs (src/sync/mcs_lock.c) has in the same way
-- the nodes of the threads in a store: Chain says how their pointers make up a queue, Front who may
-- stand in front of it, Moves what each access does to it. Sync.PCounter (src/sync/pcounter.c).
-- Sched.Context (src/init.c, src/internal.h), Sched.Messaging (src/sched/messaging.c),
-- Sched.Balancer (src/sched/balancer.c), Sched.AutoBalancer (src/sched/auto_balancer.c).
-- Sched.TaskPool (src/sched/task_pool.c): the pools of the nodes are a function of the node, their
-- queues a deque and a ring; a worker's turn is a take and, when the task's function has returned,
-- a return of the task, so that between them other workers and submissions may come. Conserve says
-- where the tasks of a node are, Submit, Steal and Take, and Finish how they pass. The loops that
-- push until they succeed have fuel, of which one round is enough. A node below 0 is `none`. The
-- floating-point comparison of the balancers is a parameter.
--
-- Words of 32 and 64 bits are numbers with the wrap-around written out; long counters of the deque,
-- which only grow, are numbers. An Option around the result of a function is `none` where the code
-- reads or writes outside an array, or where rounds or fuel run out.
--
-- Not modelled: thread affinity, topology queries, page migration; interleavings of several threads
-- on the ring, the deque and the counter; the weak memory model of C. The locks of the hash table's
-- and the skip list's shards are left out: an operation is one call after the other.
pub mod Prelude
pub mod Memory
pub mod Structs
pub mod Sync
pub mod Sched

-- ===== src/Sched/TaskPool.antt =====
-- src/sched/task_pool.c: pools of tasks, one for each node of the machine, with a queue that the node's
-- workers share and others steal from. The operations are one call after the other; what a task's
-- function does is not modelled. `none` is a NULL pointer or an index that the code follows, or a
-- loop that has run out of rounds.
pub mod Conserve
pub mod Submit
pub mod Steal
pub mod Take
pub mod Finish
pub mod Create
mod Tests
use libnumakit.Prelude.{
  ℕ, zero, suc, ◌+◌, ◌-◌, ◌*◌, ◌/◌, ◌^◌, ◌%◌, Bool, true, false, not, ◌||◌, ◌&&◌, Option, none,
  some, List, [], ◌∷◌, ltb, ◌==◌, if◌then◌else◌,
}
use Prim.Native.Nat.{bit_or}
use libnumakit.Memory.Os.{Os, World, heap, onnode, release}
use libnumakit.Sync.Threads.{update}
use libnumakit.Structs.Ring
use libnumakit.Structs.Ring.{Ring, first_try}
use libnumakit.Structs.Deque
use libnumakit.Structs.Deque.{Deque}

-- `nkit_task_t`; the home queue is named by its node.
pub record Task : Type 0 where
  pub func : ℕ
  pub arg : ℕ
  pub home : ℕ

-- `nkit_node_pool_t`; NULL is 0 or `none`.
pub record NodePool : Type 0 where
  pub node_id : ℕ
  pub capacity : ℕ
  pub task_queue : Option Deque
  pub free_queue : Option Ring
  pub task_array : ℕ
  pub threads : ℕ
  pub num_threads : ℕ
  pub threads_started : ℕ
  pub steal_order : ℕ
  pub order : List ℕ  -- what `steal_order` points to

-- `struct nkit_pool_s`, with its address, that of the array of node pools, and the tasks by address.
pub record Pool : Type 0 where
  pub addr : ℕ
  pub array : ℕ
  pub num_nodes : ℕ
  pub node_pools : ℕ → NodePool
  pub stop : Bool
  pub tasks : ℕ → Task

abbrev pub sizeof_task : ℕ
sizeof_task = 24

abbrev pub sizeof_pool : ℕ
sizeof_pool = 24

abbrev pub sizeof_node_pool : ℕ
sizeof_node_pool = 64

-- What the machine and the C library answer: the threads that start, the nodes sorted by distance
-- from one of them.
pub record Machine : Type 0 where
  pub num_nodes : ℕ  -- numa_max_node() + 1
  pub num_cpus : ℕ
  pub thread_starts : ℕ → ℕ → Bool
  pub sort_by_distance : ℕ → List ℕ → List ℕ

-- A target that is no node is replaced by node 0; a negative one is `none`.
pub target : Pool → Option ℕ → ℕ
target p none = 0
target p (some i) = if ltb i p.num_nodes then i else 0

abbrev pub with_free : Pool → ℕ → Ring → Pool
with_free p i ring = record p {
  node_pools = update p.node_pools i (record (p.node_pools i) { free_queue = some ring });
}

abbrev pub with_queue : Pool → ℕ → Deque → Pool
with_queue p i d = record p {
  node_pools = update p.node_pools i (record (p.node_pools i) { task_queue = some d });
}

-- while (!nkit_deque_push(...)) nkit_backoff(...)
unfoldable pub push_task : ℕ → Os → ℕ → Deque → World → Option (Deque × World)
push_task zero os t d w = none
push_task (suc fuel) os t d w = elim (Deque.push os t d w) [
  | none ↦ none
  | some (ok, d', w') ↦ let rest = push_task fuel os t d' w' in if ok then some (d', w') else rest
]

-- A task that was got from the free queue of node `i` is filled in and goes into the node's queue.
unfoldable pub enqueue : ℕ → Os → Pool → ℕ → ℕ → ℕ → ℕ → World → Option (Bool × Pool × World)
enqueue fuel os p i t func arg w = elim (p.node_pools i).task_queue [
  | none ↦ none
  | some d ↦ elim (push_task fuel os t d w) [
    | none ↦ none
    | some (d', w') ↦
        let filled : Task = record (p.tasks t) { func = func; arg = arg } in
        some (true, record (with_queue p i d') { tasks = update p.tasks t filled }, w')
  ]
]

-- The result is `true` for 0, `false` for -1 with EAGAIN.
unfoldable pub submit_to_node :
    ℕ → List Bool → Os → Pool → Option ℕ → ℕ → ℕ → World → Option (Bool × Pool × World)
submit_to_node fuel rounds os p node func arg w =
    let i = target p node in
    elim (p.node_pools i).free_queue [
      | none ↦ none
      | some ring ↦ elim (Ring.pop rounds ring) [
        | none ↦ none
        | some (none, ring') ↦ some (false, with_free p i ring', w)
        | some (some t, ring') ↦ enqueue fuel os (with_free p i ring') i t func arg w
      ]
    ]

-- With the node that `move_pages` reports, `none` where it fails or reports an error.
unfoldable pub submit_local :
    ℕ → List Bool → Os → Pool → Option ℕ → ℕ → ℕ → World → Option (Bool × Pool × World)
submit_local fuel rounds os p none func data_ptr w =
    submit_to_node fuel rounds os p (some 0) func data_ptr w
submit_local fuel rounds os p (some node) func data_ptr w =
    submit_to_node fuel rounds os p (some node) func data_ptr w

unfoldable pub steal_from : Pool → ℕ → Option (Option ℕ × Pool)
steal_from p j = elim (p.node_pools j).task_queue [
  | none ↦ none
  | some d ↦ elim (Deque.steal d) [ none ↦ none | some (x, d') ↦ some (x, with_queue p j d') ]
]

-- The loop over `n` nodes of the steal order.
unfoldable pub steal_loop : ℕ → List ℕ → Pool → Option (Option ℕ × Pool)
steal_loop zero order p = some (none, p)
steal_loop (suc n) [] p = none
steal_loop (suc n) (j ∷ order) p = elim (steal_from p j) [
  | none ↦ none
  | some (none, p') ↦ steal_loop n order p'
  | some (some t, p') ↦ some (some t, p')
]

-- A worker of node `i` looks for a task: in its own queue, then in the others.
unfoldable pub take_task : Pool → ℕ → Option (Option ℕ × Pool)
take_task p i = elim (p.node_pools i).task_queue [
  | none ↦ none
  | some d ↦ elim (Deque.pop d) [
    | none ↦ none
    | some (some t, d') ↦ some (some t, with_queue p i d')
    | some (none, d') ↦
        if ltb 1 p.num_nodes && not ((p.node_pools i).steal_order == 0)
        then steal_loop (p.num_nodes - 1) (p.node_pools i).order (with_queue p i d')
        else some (none, with_queue p i d')
  ]
]

-- while (!nkit_ring_push(...)) nkit_cpu_pause(), each push in the given rounds.
unfoldable pub push_free : ℕ → List Bool → ℕ → Ring → Option Ring
push_free zero rounds t ring = none
push_free (suc fuel) rounds t ring = elim (Ring.push rounds ring t) [
  | none ↦ none
  | some (ok, ring') ↦ let rest = push_free fuel rounds t ring' in if ok then some ring' else rest
]

-- A task whose function has returned goes back to its home.
unfoldable pub give_back : ℕ → List Bool → Pool → ℕ → Option Pool
give_back fuel rounds p t = elim (p.node_pools (p.tasks t).home).free_queue [
  | none ↦ none
  | some ring ↦ elim (push_free fuel rounds t ring) [
    | none ↦ none
    | some ring' ↦ some (with_free p (p.tasks t).home ring')
  ]
]

-- ===== src/Sched/TaskPool/Create.antt =====
-- `nkit_pool_create` and `nkit_pool_destroy`: the queues of all nodes first, then their threads.
use libnumakit.Prelude.{
  ℕ, zero, suc, ◌+◌, ◌-◌, ◌*◌, ◌/◌, ◌%◌, ◌^◌, Bool, true, false, not, Option, none, some, List, [],
  ◌∷◌, ltb, ◌==◌, if◌then◌else◌, bit_or,
}
use libnumakit.Memory.Os.{Os, World, heap, onnode, release}
use libnumakit.Sync.Threads.{update}
use libnumakit.Structs.Ring
use libnumakit.Structs.Ring.{Ring, first_try}
use libnumakit.Structs.Deque
use libnumakit.Structs.Deque.{Deque}
use libnumakit.Sched.TaskPool.{
  Task, NodePool, Pool, Machine, sizeof_task, sizeof_pool, sizeof_node_pool,
}

abbrev smear : ℕ → ℕ → ℕ
smear v by = bit_or v (v / 2 ^ by)

unfoldable pub next_power_of_2 : ℕ → ℕ
next_power_of_2 v =
    let v = (v + 2 ^ 32 - 1) % 2 ^ 32 in
    (smear (smear (smear (smear (smear v 1) 2) 4) 8) 16 + 1) % 2 ^ 32

abbrev pub at_least : ℕ → ℕ → ℕ
at_least low n = if ltb n low then low else n

-- Processors of each node, one at least.
unfoldable pub cpus_per_node : Machine → ℕ
cpus_per_node m = at_least 1 (m.num_cpus / m.num_nodes)

unfoldable pub ring_capacity : Machine → ℕ
ring_capacity m = at_least 1024 (next_power_of_2 (cpus_per_node m * 1024 % 2 ^ 32))

-- Pushes `n` tasks of node `i` from the one at `a` on; `none` where a push does not return.
unfoldable pub fill_tasks : ℕ → ℕ → ℕ → Ring → (ℕ → Task) → Option (Ring × (ℕ → Task))
fill_tasks zero a i ring tasks = some (ring, tasks)
fill_tasks (suc n) a i ring tasks = elim (Ring.push first_try ring a) [
  | none ↦ none
  | some (_, ring') ↦
      fill_tasks n (a + sizeof_task) i ring' (update tasks a (record (tasks a) { home = i }))
]

-- The nodes below `n` other than `i`, with those above them behind.
unfoldable pub others : ℕ → ℕ → List ℕ → List ℕ
others i zero rest = rest
others i (suc n) rest = if i == n then others i n rest else others i n (n ∷ rest)

-- The threads' array and the steal order, behind the queues. A NULL steal order is written to.
unfoldable pub make_order : Os → Machine → ℕ → NodePool → World → Option (NodePool × World)
make_order os m i np w =
    let s = os.malloc w (4 * (m.num_nodes - 1)) in
    if not (ltb 1 m.num_nodes)
    then some (record np { steal_order = 0; order = [] }, w)
    else if s == 0
    then none
    else some (
      record np { steal_order = s; order = m.sort_by_distance i (others i m.num_nodes []) },
      heap s (4 * (m.num_nodes - 1)) ∷ w,
    )

-- The queues and the tasks of node `i`: what is made is in the node's record also when something is
-- missing, and the Boolean says whether all is there.
unfoldable pub populate :
    Os → Machine → ℕ → NodePool → (ℕ → Task) → World → Option (Bool × NodePool × (ℕ → Task) × World)
populate os m i np tasks w = elim np.free_queue [
  | none ↦ some (false, np, tasks, w)
  | some ring ↦ elim np.task_queue [
    | none ↦ some (false, np, tasks, w)
    | some d ↦
        let filled = fill_tasks np.capacity np.task_array i ring tasks in
        let t = os.malloc w (8 * np.num_threads) in
        let w' = if t == 0 then w else heap t (8 * np.num_threads) ∷ w in
        if np.task_array == 0 then some (false, np, tasks, w) else elim filled [
          | none ↦ none
          | some (ring', tasks') ↦
              elim (make_order os m i (record np { free_queue = some ring'; threads = t }) w') [
                | none ↦ none
                | some (np', w'') ↦ some (true, np', tasks', w'')
              ]
        ]
  ]
]

unfoldable pub make_node :
    Os → Machine → ℕ → (ℕ → Task) → World → Option (Bool × NodePool × (ℕ → Task) × World)
make_node os m i tasks w =
    let n = ring_capacity m in
    let (queue, w1) = Deque.create os i n w in
    let (ring, w2) = Ring.create os i n w1 in
    let a = os.numa_alloc w2 (sizeof_task * n) i in
    populate os m i
      (record {
        node_id = i;
        capacity = n;
        task_queue = queue;
        free_queue = ring;
        task_array = a;
        threads = 0;
        num_threads = cpus_per_node m;
        threads_started = 0;
        steal_order = 0;
        order = [];
      })
      tasks (if a == 0 then w2 else onnode a (sizeof_task * n) ∷ w2)

unfoldable pub make_nodes : Os → Machine → ℕ → ℕ → Pool → World → Option (Bool × Pool × World)
make_nodes os m zero i p w = some (true, p, w)
make_nodes os m (suc n) i p w = elim (make_node os m i p.tasks w) [
  | none ↦ none
  | some (made, np, tasks, w') ↦
      let p' = record p { node_pools = update p.node_pools i np; tasks = tasks } in
      let rest = make_nodes os m n (i + 1) p' w' in if made then rest else some (false, p', w')
]

-- How many of the first `n` threads of node `i` start.
unfoldable pub started : Machine → ℕ → ℕ → ℕ
started m i zero = 0
started m i (suc n) = started m i n + (if m.thread_starts i n then 1 else 0)

-- A NULL array of threads is written to.
unfoldable pub start_nodes : Machine → ℕ → ℕ → Pool → Option Pool
start_nodes m zero i p = some p
start_nodes m (suc n) i p =
    let np = p.node_pools i in
    let rest = start_nodes m n (i + 1) (record p {
      node_pools =
          update p.node_pools i (record np { threads_started = started m i np.num_threads });
    }) in
    if np.threads == 0 then none else rest

abbrev release_at : ℕ → ℕ → World → World
release_at a n w = if a == 0 then w else release (heap a n) w

unfoldable pub destroy_node : ℕ → NodePool → World → World
destroy_node num_nodes np w =
    let w1 : World = elim np.task_queue [ none ↦ w | some d ↦ Deque.destroy d w ] in
    let w2 : World = elim np.free_queue [ none ↦ w1 | some ring ↦ Ring.free ring w1 ] in
    let w3 : World =
      if np.task_array == 0
      then w2
      else release (onnode np.task_array (sizeof_task * np.capacity)) w2 in
    release_at np.steal_order (4 * (num_nodes - 1)) (release_at np.threads (8 * np.num_threads) w3)

unfoldable pub destroy_nodes : ℕ → ℕ → Pool → World → World
destroy_nodes zero i p w = w
destroy_nodes (suc n) i p w =
    destroy_nodes n (i + 1) p (destroy_node p.num_nodes (p.node_pools i) w)

-- With the threads joined, as they see the flag `stop`.
unfoldable pub destroy : Pool → World → World
destroy p w =
    release (heap p.addr sizeof_pool)
      (release (heap p.array (p.num_nodes * sizeof_node_pool)) (destroy_nodes p.num_nodes 0 p w))

-- What `calloc` leaves of a node pool.
abbrev pub blank : NodePool
blank = record {
  node_id = 0;
  capacity = 0;
  task_queue = none;
  free_queue = none;
  task_array = 0;
  threads = 0;
  num_threads = 0;
  threads_started = 0;
  steal_order = 0;
  order = [];
}

-- With the array of node pools made.
unfoldable pub create_nodes : Os → Machine → Pool → World → Option (Option Pool × World)
create_nodes os m p w = elim (make_nodes os m p.num_nodes 0 p w) [
  | none ↦ none
  | some (false, p', w') ↦ some (none, destroy p' w')
  | some (true, p', w') ↦ elim (start_nodes m p'.num_nodes 0 p') [
    | none ↦ none
    | some p'' ↦ some (some p'', w')
  ]
]

-- A NULL array of node pools is written to.
unfoldable pub create : Os → Machine → (ℕ → Task) → World → Option (Option Pool × World)
create os m tasks w =
    let p = os.malloc w sizeof_pool in
    let w1 = heap p sizeof_pool ∷ w in
    let q = os.malloc w1 (m.num_nodes * sizeof_node_pool) in
    if not os.numa_available
    then some (none, w)
    else if p == 0
    then some (none, w)
    else if q == 0
    then none
    else create_nodes os m
        (record {
          addr = p;
          array = q;
          num_nodes = m.num_nodes;
          node_pools = λ _. blank;
          stop = false;
          tasks = tasks;
        })
        (heap q (m.num_nodes * sizeof_node_pool) ∷ w1)

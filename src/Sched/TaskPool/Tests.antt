-- ===== src/Sched/TaskPool/Tests.antt =====
-- A task pool of one node with two tasks, and the theorems there.
use libnumakit.Prelude.{
  ℕ, ◌≡◌, ◌⊎◌, refl, Bool, true, false, Option, none, some, List, [], ◌∷◌, arith,
}
use libnumakit.Memory.Os.{Os}
use libnumakit.Memory.Arena.{Arena}
use libnumakit.Structs.Ring.{Ring, init, first_try}
use libnumakit.Structs.Ring.Create.{init-IsValid}
use libnumakit.Structs.Ring.Queue.{Holds, push_room}
use libnumakit.Structs.Deque.{Deque}
use libnumakit.Structs.Deque.Refine as Items
use libnumakit.Sched.TaskPool.{Machine, Pool, submit_to_node, take_task, give_back, target}
use libnumakit.Sched.TaskPool.Create.{ring_capacity, cpus_per_node, next_power_of_2, others}
use libnumakit.Sched.TaskPool.Conserve.{Tasks, IsPool}
use libnumakit.Sched.TaskPool.Submit.{Submitted, Refused, submit_lem}
use libnumakit.Sched.TaskPool.Take.{take_lem}
use libnumakit.Sched.TaskPool.Steal.{Took}
use libnumakit.Sched.TaskPool.Finish.{given, give_back_lem}

abbrev roomy : Os
roomy = record {
  malloc = λ _ _. 64;
  mmap = λ _ _ _. 4096;
  numa_alloc = λ _ _ _. 8192;
  mbind = λ _ _ _. true;
  madvise = λ _ _. true;
  page_size = 4096;
  numa_available = true;
}

abbrev some_arena : Arena
some_arena = record {
  addr = 64;
  base = 4096;
  size = 2097152;
  used = 0;
  node_id = 0;
  use_huge = true;
  policy = none;
}

abbrev no_free : Ring
no_free = init 2 some_arena

no_free-Holds : Holds 1 [] no_free
no_free-Holds = (0, 0, init-IsValid 1 some_arena (omega arith) (omega arith), refl)

abbrev one_free : (r : Ring) × Holds 1 (24 ∷ []) r
one_free =
    let (r, ran, held, place) = push_room first_try refl [] 24 no_free-Holds (omega arith) in
    (r, held)

abbrev queue : Deque
queue = record {
  addr = 64;
  node_id = 0;
  bottom = 4;
  top = 3;
  array = record { place = 128; size = 2; mask = 1; buffer = 0 ∷ 48 ∷ [] };
  retired_arrays = 256;
  retired = [];
  retired_capacity = 8;
}

queue-Holds : Items.Holds 1 (48 ∷ []) queue
queue-Holds = record {
  narrow = omega arith;
  shaped = record { size_eq = refl; mask_eq = refl; length_eq = refl };
  order = omega arith;
  room = omega arith;
  content = refl;
}

abbrev pool : Ring → Pool
pool ring = record {
  addr = 64;
  array = 128;
  num_nodes = 1;
  node_pools = λ _. record {
    node_id = 0;
    capacity = 2;
    task_queue = some queue;
    free_queue = some ring;
    task_array = 24;
    threads = 512;
    num_threads = 1;
    threads_started = 1;
    steal_order = 0;
    order = [];
  };
  stop = false;
  tasks = λ _. record { func = 0; arg = 0; home = 0 };
}

abbrev tasks : List ℕ → List ℕ → ℕ → Tasks
tasks idle running _ = record {
  all = 24 ∷ 48 ∷ [];
  idle = idle;
  queued = 48 ∷ [];
  running = running;
}

waiting-IsPool : IsPool 1 (pool one_free.0) (tasks (24 ∷ []) [])
waiting-IsPool = record {
  some_node = omega arith;
  node = λ i lt. record {
    ring = one_free.0;
    deque = queue;
    free_queue = refl;
    task_queue = refl;
    idle = one_free.1;
    queued = queue-Holds;
    shares = λ x. omega arith;
    sizes = refl;
    home = λ x h. omega (arith, lt);
  };
}

running-IsPool : IsPool 1 (pool no_free) (tasks [] (24 ∷ []))
running-IsPool = record {
  some_node = omega arith;
  node = λ i lt. record {
    ring = no_free;
    deque = queue;
    free_queue = refl;
    task_queue = refl;
    idle = no_free-Holds;
    queued = queue-Holds;
    shares = λ x. omega arith;
    sizes = refl;
    home = λ x h. omega (arith, lt);
  };
}

-- Node 5 is none of the pool's.
submit_lem_example :
    (ok : Bool) × (p' : Pool) × (submit_to_node 1 first_try roomy (pool one_free.0) (some 5) 7 8 []
      ≡ some (ok, p', []))
    × ((ok ≡ false) × Refused 1 (target (pool one_free.0) (some 5)) (tasks (24 ∷ []) []) p'
        ⊎ (ok ≡ true)
          × ((t : ℕ) × (rest : List ℕ) × Submitted 1
                (target (pool one_free.0) (some 5))
                7
                8
                (tasks (24 ∷ []) [])
                t
                rest
                p'))
submit_lem_example = submit_lem 0 first_try roomy 7 8 [] waiting-IsPool refl (some 5)

take_lem_example :
    (o : Option ℕ) × (p' : Pool) × (take_task (pool one_free.0) 0 ≡ some (o, p'))
    × Took 1 0 (tasks (24 ∷ []) []) [] p' o
take_lem_example =
    take_lem waiting-IsPool 0 (omega arith)
      (record { within = tt; many = refl; made = λ h. absurd (omega arith) })

give_back_lem_example :
    (p' : Pool) × (give_back 1 first_try (pool no_free) 24 ≡ some p')
    × IsPool 1 p' (given 0 first_try running-IsPool refl 0 (omega arith) 24 [] [] refl)
give_back_lem_example = give_back_lem 0 first_try running-IsPool refl 0 (omega arith) 24 [] [] refl

-- Three processors for each of two nodes: 4096 tasks.
abbrev two_nodes : Machine
two_nodes = record {
  num_nodes = 2;
  num_cpus = 6;
  thread_starts = λ _ _. true;
  sort_by_distance = λ _ l. l;
}

capacity : ring_capacity two_nodes ≡ 4096
unfolding ring_capacity cpus_per_node next_power_of_2
capacity = refl

order : others 1 4 [] ≡ 0 ∷ 2 ∷ 3 ∷ []
unfolding others
order = refl

-- ===== src/Sched/Tests.antt =====
-- The theorems of the context, the mailboxes and the balancers at concrete states.
use libnumakit.Prelude.{
  ℕ, ◌^◌, ◌≡◌, refl, true, false, Option, none, some, List, [], ◌∷◌, arith, ltb, if◌then◌else◌,
  length,
}
use libnumakit.Memory.Os.{Os, heap}
use libnumakit.Memory.Arena.{Arena}
use libnumakit.Structs.Ring.{Ring, first_try}
use libnumakit.Structs.Ring
use libnumakit.Structs.Ring.Create.{init-IsValid}
use libnumakit.Structs.Ring.Queue.{Holds}
use libnumakit.Sched.Context
use libnumakit.Sched.Context.{Context, Mailbox, Topology, blank}
use libnumakit.Sched.Messaging.{send, process_local, ring_of, sent, congested}
use libnumakit.Sched.Messaging.Delivery.{Mailed, OthersSame, send_law, send_all, process-send_all}
use libnumakit.Sched.Setup.{send-init-blank}
use libnumakit.Sync.Threads.{member}
use libnumakit.Sched.Balancer.{set_threshold, Perf}
use libnumakit.Sched.AutoBalancer
use libnumakit.Sched.AutoBalancer.{AutoBalancer, Sight, register, unregister}
use libnumakit.Sched.AutoBalancer.Registry.{Join, Leave, register-Join, unregister-Leave}

abbrev roomy : Os
roomy = record {
  malloc = λ _ _. 64;
  mmap = λ _ _ _. 4096;
  numa_alloc = λ _ _ _. 8192;
  mbind = λ _ _ _. true;
  madvise = λ _ _. true;
  page_size = 4096;
  numa_available = true;
}

abbrev some_arena : Arena
some_arena = record {
  addr = 64;
  base = 4096;
  size = 2097152;
  used = 0;
  node_id = 0;
  use_huge = true;
  policy = none;
}

abbrev machine : Topology
machine = record { can_init = true; can_load = true; nodes = 2; pus = 8 }

abbrev first_context : Context
first_context = record {
  topo = true;
  num_nodes = 2;
  num_pus = 8;
  initialized = true;
  array = some 64;
  mailboxes = [];
  threshold = 50;
  numa_supported = true;
}

first_init : Context.init roomy machine blank [] ≡ (true, first_context, heap 64 0 ∷ [])
unfolding Context.init Context.cache Context.init_mailboxes Context.make_mailboxes
first_init = refl

send-init-blank_example :
    (send first_try first_context (some 0) 7 ≡ none)
    × ((fuel limit : ℕ) → process_local fuel first_try first_context (some 0) limit ≡ none)
send-init-blank_example =
    send-init-blank roomy machine [] (heap 64 0 ∷ []) first_context first_try 7 first_init

-- A context whose node 1 has an empty mailbox of two slots.
abbrev ring : Ring
ring = Ring.init 2 some_arena

abbrev mailed_context : Context
mailed_context = record first_context {
  mailboxes = none ∷ some (record { addr = 128; ring = some ring }) ∷ [];
}

ring-Holds : Holds 1 [] ring
ring-Holds = (0, 0, init-IsValid 1 some_arena (omega arith) (omega arith), refl)

mailed : Mailed 1 [] 1 mailed_context
unfolding ring_of
mailed = (record { addr = 128; ring = some ring }, ring, refl, ring-Holds, omega arith, omega arith)

send_law_example :
    (c' : Context) × (send first_try mailed_context (some 1) 7
      ≡ some (if ltb 0 (2 ^ 1) then sent else congested, c'))
    × Mailed 1 (if ltb 0 (2 ^ 1) then 7 ∷ [] else []) 1 c'
    × OthersSame 1 mailed_context c'
    × (c'.num_nodes ≡ 2)
send_law_example = send_law 1 first_try refl [] mailed_context 1 7 mailed

process-send_all_example :
    (c' : Context) × (c'' : Context) × (send_all first_try mailed_context 1 (7 ∷ 8 ∷ []) ≡ some c')
    × (process_local 3 first_try c' (some 1) 0 ≡ some (7 ∷ 8 ∷ [], c''))
    × Mailed 1 [] 1 c''
process-send_all_example =
    process-send_all 1 first_try refl (7 ∷ 8 ∷ []) [] mailed_context 1 3 (omega arith) (omega arith)
      mailed

-- A kernel that hands out the descriptors 3 and 4 where they are free.
abbrev fresh_fd : List ℕ → Option ℕ
fresh_fd fds = if member 3 fds then (if member 4 fds then none else some 4) else some 3

abbrev perf : Perf
perf = record {
  open_counter = λ _ fds. fresh_fd fds;
  read_counter = λ _. some 2000;
  exceeds = λ m i. ltb i m;
}

abbrev no_perf : Perf
no_perf = record perf { open_counter = λ _ _. none }

-- One thread on node 0, in the first of two entries.
abbrev balancer : AutoBalancer
balancer = record {
  interval_ms = 100;
  threshold = 50;
  entries =
      record { tid = 11; current_node = 0; active = true }
      ∷ record { tid = 0; current_node = 0; active = false }
      ∷ [];
  migration_count = 0;
  calls = [];
}

register-Join_example : Join balancer 12 (register balancer 12 1)
register-Join_example = register-Join balancer 12 1

unregister-Leave_example : Leave balancer 11 (unregister balancer 11)
unregister-Leave_example = unregister-Leave balancer 11

abbrev busy : Sight
busy = record {
  counters_open = true;
  miss = 500;
  instr = 1000;
  exceeds = λ m i. true;
  node_cpus = λ _. true;
  set_affinity = λ _ _. true;
}

-- Tearing down what the first `init` made reads a mailbox that is not there.
teardown_first : Context.teardown first_context (heap 64 0 ∷ []) ≡ none
unfolding Context.teardown
teardown_first = refl

-- The arguments that are refused, and the registry of a fresh balancer.
abbrev entries_of : Option AutoBalancer → ℕ
entries_of none = 0
entries_of (some ab) = length ab.entries

create_auto :
    (AutoBalancer.create 0 50 true true ≡ none)
    × (entries_of (AutoBalancer.create 100 50 true true) ≡ 64)
unfolding AutoBalancer.create
create_auto = (refl, refl)

thresholds :
    ((set_threshold 20 first_context).threshold ≡ 20)
    × ((set_threshold 0 first_context).threshold ≡ 50)
unfolding set_threshold
thresholds = (refl, refl)

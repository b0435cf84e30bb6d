-- ===== src/Sched/AutoBalancer.antt =====
-- src/sched/auto_balancer.c: a registry of threads, and the monitor that moves them between nodes.
pub mod Registry
pub mod Scan
use libnumakit.Prelude.{
  ℕ, ◌+◌, ◌-◌, ◌%◌, zero, suc, Bool, true, false, not, ◌&&◌, ◌||◌, Option, none, some, List, [],
  ◌∷◌, ◌++◌, ltb, leb, ◌==◌, if◌then◌else◌, replicate, length,
}
use libnumakit.Sched.Context.{Context}

-- AB_MAX_THREADS and AB_MIN_INSTRUCTIONS
abbrev pub max_threads : ℕ
max_threads = 64

abbrev pub min_instructions : ℕ
min_instructions = 1000

-- `ab_entry_t`; the descriptors in it are -1 from its first moment to its last.
pub record Entry : Type 0 where
  pub tid : ℕ
  pub current_node : ℕ
  pub active : Bool

-- A call of the callback.
pub record Migration : Type 0 where
  pub thread : ℕ
  pub from : ℕ
  pub to : ℕ

-- `struct nkit_auto_balancer_s`, and what the callback was called with so far, in their order.
pub record AutoBalancer : Type 0 where
  pub interval_ms : ℕ
  pub threshold : ℕ
  pub entries : List Entry
  pub migration_count : ℕ
  pub calls : List Migration

-- What the monitor meets at its turn at one entry: whether both counters could be opened, what they
-- read (0 where the read fails), whether the ratio of the two, which the code computes in floating
-- point, is above the threshold, whether libnuma knows the processors of a node, and whether the
-- kernel accepts the new affinity of a thread.
pub record Sight : Type 0 where
  pub counters_open : Bool
  pub miss : ℕ
  pub instr : ℕ
  pub exceeds : ℕ → ℕ → Bool
  pub node_cpus : ℕ → Bool
  pub set_affinity : ℕ → ℕ → Bool

abbrev empty_entry : Entry
empty_entry = record { tid = 0; current_node = 0; active = false }

-- With memory and a thread at hand; the threshold counts in whole misses per kilo-instruction.
unfoldable pub create : ℕ → ℕ → Bool → Bool → Option AutoBalancer
create interval_ms threshold allocated launched =
    if interval_ms == 0
    then none
    else if threshold == 0
    then none
    else if not allocated
    then none
    else if not launched
    then none
    else some (record {
      interval_ms = interval_ms;
      threshold = threshold;
      entries = replicate max_threads empty_entry;
      migration_count = 0;
      calls = [];
    })

-- The loop of `register`: the first entry that is not active is taken.
pub register_in : ℕ → ℕ → List Entry → Option (List Entry)
register_in tid node [] = none
register_in tid node (e ∷ es) =
    let rest = register_in tid node es in
    if e.active
    then elim rest [ none ↦ none | some es' ↦ some (e ∷ es') ]
    else some (record { tid = tid; current_node = node; active = true } ∷ es)

-- `true` for 0, `false` for -1.
pub register : AutoBalancer → ℕ → ℕ → Bool × AutoBalancer
register ab tid node = elim (register_in tid node ab.entries) [
  | none ↦ (false, ab)
  | some es ↦ (true, record ab { entries = es })
]

-- The loop of `unregister`: the first active entry of the thread is given up.
pub unregister_in : ℕ → List Entry → Option (List Entry)
unregister_in tid [] = none
unregister_in tid (e ∷ es) =
    let rest = unregister_in tid es in
    if e.active && e.tid == tid
    then some (record e { active = false } ∷ es)
    else elim rest [ none ↦ none | some es' ↦ some (e ∷ es') ]

pub unregister : AutoBalancer → ℕ → Bool × AutoBalancer
unregister ab tid = elim (unregister_in tid ab.entries) [
  | none ↦ (false, ab)
  | some es ↦ (true, record ab { entries = es })
]

pub migrations : AutoBalancer → ℕ
migrations ab = ab.migration_count

pub find_target_node : ℕ → ℕ → ℕ
find_target_node current num_nodes = if leb num_nodes 1 then current else (current + 1) % num_nodes

-- The move of one thread to another node.
move : Sight → Entry → ℕ → Entry × Option Migration
move s e to =
    if s.node_cpus to && s.set_affinity e.tid to
    then (
      record e { current_node = to },
      some (record { thread = e.tid; from = e.current_node; to = to }),
    )
    else (e, none)

-- The monitor's turn at one entry.
pub visit : Sight → ℕ → Entry → Entry × Option Migration
unfolding move
visit s num_nodes e =
    let to = find_target_node e.current_node num_nodes in
    if not e.active
    then (e, none)
    else if not s.counters_open
    then (e, none)
    else if ltb s.instr min_instructions
    then (e, none)
    else if s.exceeds s.miss s.instr
    then if to == e.current_node then (e, none) else move s e to
    else (e, none)

abbrev pub log : Option Migration → List Migration → List Migration
log none ms = ms
log (some m) ms = m ∷ ms

-- One scan of all entries, from entry `i` on; the migrations come out in the order of the calls.
pub scan_from : (ℕ → Sight) → ℕ → ℕ → List Entry → List Entry × List Migration
scan_from sight num_nodes i [] = ([], [])
scan_from sight num_nodes i (e ∷ es) =
    let (e', m) = visit (sight i) num_nodes e in
    let (es', ms) = scan_from sight num_nodes (i + 1) es in (e' ∷ es', log m ms)

abbrev at_least_one : ℕ → ℕ
at_least_one zero = 1
at_least_one (suc n) = suc n

-- The body of the monitor's loop, between two sleeps. Nobody registers in the meantime.
pub scan : (ℕ → Sight) → Context → AutoBalancer → AutoBalancer
scan sight c ab =
    let (es, ms) = scan_from sight (at_least_one c.num_nodes) 0 ab.entries in
    record ab {
      entries = es;
      migration_count = ab.migration_count + length ms;
      calls = ab.calls ++ ms;
    }

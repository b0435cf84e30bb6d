-- ===== src/Sched/AutoBalancer/Scan.antt =====
-- A scan of the monitor: whom it moves, where to, and how it counts.
use libnumakit.Prelude.{
  ℕ, ◌+◌, ◌%◌, ◌<◌, ◌≤◌, ◌≡◌, ◌≢◌, ◌⊎◌, ◌∙◌, ap, true, Option, none, some, List, [], ◌∷◌, length,
  arith, dec_lt,
}
use native.Mathlib.Nat.{mod-eq_of_lt, mod_self}
use libnumakit.Sched.Context.{Context}
use libnumakit.Sched.AutoBalancer.Registry.{times, taken}
use libnumakit.Sched.AutoBalancer.{
  Entry, AutoBalancer, Migration, Sight, find_target_node, visit, min_instructions, move,
}

-- Round robin: the target is a node of the machine, and another one if there is another.
pub find_target_node_lem :
    (node n : ℕ)
    → node < n
    → (find_target_node node n < n) × ((n ≡ 1) ⊎ (find_target_node node n ≢ node))
unfolding find_target_node
find_target_node_lem node n h = elim (dec_lt (node + 1) n) [
  | yes below ↦ let same : (node + 1) % n ≡ node + 1 = mod-eq_of_lt below in ground arith
  | no last ↦
      let whole : n ≡ node + 1 = omega arith in
      let wraps : (node + 1) % n ≡ 0 = ap (λ m. (node + 1) % m) whole ∙ mod_self (node + 1) in
      ground arith
]

abbrev pub Visited : Sight → ℕ → Entry → Entry × Option Migration → Type 0
Visited s n e (e', none) = e' ≡ e
Visited s n e (e', some m) =
    (e.active ≡ true)
    × (s.counters_open ≡ true)
    × (min_instructions ≤ s.instr)
    × (s.exceeds s.miss s.instr ≡ true)
    × (s.set_affinity e.tid m.to ≡ true)
    × (e' ≡ record e { current_node = m.to })
    × (m.thread ≡ e.tid)
    × (m.from ≡ e.current_node)
    × (m.to ≡ find_target_node e.current_node n)
    × (m.to ≢ m.from)

pub visit-Visited : (s : Sight) (n : ℕ) (e : Entry) → Visited s n e (visit s n e)
unfolding visit move
visit-Visited s n e = ground arith

-- Every entry names a node of the machine.
abbrev pub InRange : ℕ → List Entry → Type 0
InRange n [] = Unit
InRange n (e ∷ es) = (e.current_node < n) × InRange n es

-- Every move goes from one node of the machine to another.
abbrev pub Moves : ℕ → List Migration → Type 0
Moves n [] = Unit
Moves n (m ∷ ms) = (m.from < n) × (m.to < n) × (m.to ≢ m.from) × Moves n ms

-- What a scan comes to.
abbrev pub Scanned : ℕ → List Entry → List Entry × List Migration → Type 0
Scanned n es (es', ms) =
    InRange n es'
    × Moves n ms
    × (length es' ≡ length es)
    × (length ms ≤ taken es)
    × ((t : ℕ) → times t es' ≡ times t es)

-- The number of migrations is the number of calls of the callback, all of them between two nodes of
-- the machine; every entry names a node.
pub record IsValid (n : ℕ) (ab : AutoBalancer) : Type 0 where
  pub counted : ab.migration_count ≡ length ab.calls
  pub moves : Moves n ab.calls
  pub in_range : InRange n ab.entries

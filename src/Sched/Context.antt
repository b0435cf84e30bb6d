-- ===== src/Sched/Context.antt =====
-- src/init.c and src/internal.h: the one context of the library, how it is set up and torn down.
use libnumakit.Prelude.{
  ℕ, ◌+◌, ◌*◌, zero, suc, Bool, true, false, Option, none, some, List, [], ◌∷◌, ◌==◌, if◌then◌else◌,
}
use libnumakit.Memory.Os.{Os, World, Resource, heap, onnode, release}
use libnumakit.Structs.Ring
use libnumakit.Structs.Ring.{Ring}

-- sizeof(nkit_mailbox_t) and the size of a pointer
abbrev pub sizeof_mailbox : ℕ
sizeof_mailbox = 72

abbrev pub sizeof_pointer : ℕ
sizeof_pointer = 8

-- `nkit_mailbox_t`: its address, and its ring if that could be made.
pub record Mailbox : Type 0 where
  pub addr : ℕ
  pub ring : Option Ring

-- `nkit_context_t`. The mailboxes are the array that was allocated, with `none` for NULL.
pub record Context : Type 0 where
  pub topo : Bool  -- whether a topology is loaded
  pub num_nodes : ℕ
  pub num_pus : ℕ
  pub initialized : Bool
  pub array : Option ℕ
  pub mailboxes : List (Option Mailbox)
  pub threshold : ℕ  -- misses per kilo-instruction
  pub numa_supported : Bool

-- What hwloc answers.
pub record Topology : Type 0 where
  pub can_init : Bool
  pub can_load : Bool
  pub nodes : ℕ  -- an answer below 0 counts as 0, which the code treats alike
  pub pus : ℕ

abbrev pub blank : Context
blank = record {
  topo = false;
  num_nodes = 0;
  num_pus = 0;
  initialized = false;
  array = none;
  mailboxes = [];
  threshold = 0;
  numa_supported = false;
}

mailbox_resource : Bool → ℕ → Resource
mailbox_resource true p = onnode p sizeof_mailbox
mailbox_resource false p = heap p sizeof_mailbox

alloc_mailbox : Os → Bool → ℕ → World → ℕ
alloc_mailbox os true i w = os.numa_alloc w sizeof_mailbox i
alloc_mailbox os false i w = os.malloc w sizeof_mailbox

-- One turn of the loop over the nodes.
make_mailbox : Os → Bool → ℕ → World → Option Mailbox × World
unfolding alloc_mailbox mailbox_resource
make_mailbox os numa i w =
    let p = alloc_mailbox os numa i w in
    if p == 0
    then (none, w)
    else let (ring, w') = Ring.create os i 4096 (mailbox_resource numa p ∷ w) in
      (some (record { addr = p; ring = ring }), w')

unfoldable pub make_mailboxes : Os → Bool → ℕ → ℕ → World → List (Option Mailbox) × World
unfolding make_mailbox
make_mailboxes os numa zero i w = ([], w)
make_mailboxes os numa (suc n) i w =
    let (box, w1) = make_mailbox os numa i w in
    let (boxes, w2) = make_mailboxes os numa n (i + 1) w1 in (box ∷ boxes, w2)

-- Step 6 of `nkit_init`, by the number of nodes in the context at that point.
unfoldable pub init_mailboxes : Os → Context → World → Context × World
unfolding make_mailboxes
init_mailboxes os c w =
    let size = sizeof_pointer * c.num_nodes in
    let p = os.malloc w size in
    if p == 0
    then (record c { array = none; mailboxes = [] }, w)
    else let (boxes, w') = make_mailboxes os c.numa_supported c.num_nodes 0 (heap p size ∷ w) in
      (record c { array = some p; mailboxes = boxes }, w')

-- DEFAULT_MPKI
abbrev pub default_mpki : ℕ
default_mpki = 50

-- Steps 7 to 9: the default threshold and the cached counts.
unfoldable pub cache : Topology → Context → Context
cache t c = record c {
  threshold = default_mpki;
  num_nodes = if t.nodes == 0 then 1 else t.nodes;
  num_pus = t.pus;
}

-- `true` for 0, `false` for -1. The compare-and-swap of step 2 always succeeds in one thread, since
-- `initialized` has just been read as false.
unfoldable pub init : Os → Topology → Context → World → Bool × Context × World
init os t c w =
    let numa = record c { numa_supported = os.numa_available } in
    let (boxed, w') = init_mailboxes os (record numa { initialized = true; topo = true }) w in
    if c.initialized
    then (true, c, w)
    else if t.can_init
    then if t.can_load then (true, cache t boxed, w') else (false, record numa { topo = false }, w)
    else (false, numa, w)

free_mailbox : Bool → Option Mailbox → World → World
unfolding mailbox_resource
free_mailbox numa none w = w
free_mailbox numa (some box) w =
    release (mailbox_resource numa box.addr) (elim box.ring [ none ↦ w | some r ↦ Ring.free r w ])

-- The first `n` mailboxes of the array; `none` when the loop reads behind its end.
free_mailboxes : Bool → ℕ → List (Option Mailbox) → World → Option World
unfolding free_mailbox
free_mailboxes numa zero boxes w = some w
free_mailboxes numa (suc n) [] w = none
free_mailboxes numa (suc n) (box ∷ boxes) w = free_mailboxes numa n boxes (free_mailbox numa box w)

-- The pointer to the freed array stays in the context. `none` is a read outside the array.
unfoldable pub teardown : Context → World → Option (Context × World)
unfolding free_mailboxes
teardown c w =
    let c' = if c.initialized then record c { initialized = false; topo = false } else c in
    elim c.array [
      | none ↦ some (c', w)
      | some p ↦ elim (free_mailboxes c.numa_supported c.num_nodes c.mailboxes w) [
        | none ↦ none
        | some w' ↦ some (c', release (heap p (sizeof_pointer * c.num_nodes)) w')
      ]
    ]

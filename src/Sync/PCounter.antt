-- ===== src/Sync/PCounter.antt =====
-- src/sync/pcounter.c: a counter with one slot per node. A slot is an int64_t: its value stands for
-- the number below 2^64 with the same bits, so that `fetch_add` is addition modulo 2^64.
pub mod Sum
pub mod Lifetime
use libnumakit.Prelude.{
  ℕ, ◌+◌, ◌-◌, ◌*◌, ◌%◌, ◌^◌, zero, suc, Bool, true, false, not, Option, none, some, List, [], ◌∷◌,
  ◌++◌, add64, ltb, leb, ◌==◌, ◌||◌, if◌then◌else◌, length, get_or, set, replicate,
}
use libnumakit.Memory.Os.{Os, World, M, Resource, heap, onnode, release}

-- sizeof(nkit_pcounter_slot_t), sizeof(nkit_pcounter_t) and the size of a pointer
abbrev pub sizeof_slot : ℕ
sizeof_slot = 64

abbrev pub sizeof_pcounter : ℕ
sizeof_pcounter = 16

abbrev pub sizeof_pointer : ℕ
sizeof_pointer = 8

-- `struct nkit_pcounter_s`: the addresses of the struct, of the array and of the slots, and the
-- value in each slot. `num_nodes` is the number of slots.
pub record PCounter : Type 0 where
  pub addr : ℕ
  pub array : ℕ
  pub slots : List ℕ
  pub values : List ℕ
  pub num_nodes : ℕ

-- `numa_alloc_onnode` or `aligned_alloc`, by `numa_supported`.
abbrev pub slot_resource : Bool → ℕ → Resource
slot_resource true p = onnode p sizeof_slot
slot_resource false p = heap p sizeof_slot

alloc_slot : Os → Bool → ℕ → World → ℕ
alloc_slot os true i w = os.numa_alloc w sizeof_slot i
alloc_slot os false i w = os.malloc w sizeof_slot

-- The loop of `destroy`, and of the clean-up on a partial failure.
pub free_slots : Bool → List ℕ → World → World
free_slots numa [] w = w
free_slots numa (p ∷ ps) w = free_slots numa ps (release (slot_resource numa p) w)

-- The slots from number `i` on, behind those that are done; `none` gives all of them back.
pub create_slots : Os → Bool → ℕ → ℕ → List ℕ → World → Option (List ℕ) × World
unfolding alloc_slot
create_slots os numa zero i done w = (some done, w)
create_slots os numa (suc n) i done w =
    let p = alloc_slot os numa i w in
    let rest = create_slots os numa n (i + 1) (done ++ p ∷ []) (slot_resource numa p ∷ w) in
    if p == 0 then (none, free_slots numa done w) else rest

-- `num_nodes <= 0` becomes 1; an `int` below 0 is not a number of nodes that the context holds.
abbrev pub at_least_one : ℕ → ℕ
at_least_one zero = 1
at_least_one (suc n) = suc n

-- With the struct and the array made.
pub finish : ℕ → ℕ → ℕ → Option (List ℕ) × World → Option PCounter × World
finish p q n (none, w) =
    (none, release (heap p sizeof_pcounter) (release (heap q (sizeof_pointer * n)) w))
finish p q n (some slots, w) =
    (some (record { addr = p; array = q; slots = slots; values = replicate n 0; num_nodes = n }), w)

pub create : Os → Bool → ℕ → M (Option PCounter)
create os numa nodes w =
    let n = at_least_one nodes in
    let p = os.malloc w sizeof_pcounter in
    let w1 = heap p sizeof_pcounter ∷ w in
    let q = os.malloc w1 (sizeof_pointer * n) in
    let w2 = heap q (sizeof_pointer * n) ∷ w1 in
    if p == 0
    then (none, w)
    else if q == 0
    then (none, release (heap p sizeof_pcounter) w1)
    else finish p q n (create_slots os numa n 0 [] w2)

pub destroy : Bool → PCounter → World → World
destroy numa c w =
    release (heap c.addr sizeof_pcounter)
      (release (heap c.array (sizeof_pointer * c.num_nodes)) (free_slots numa c.slots w))

-- `nkit_current_node` answers `none` for an error; a node outside the array counts as node 0.
pub own_slot : Option ℕ → ℕ → ℕ
own_slot none n = 0
own_slot (some node) n = if ltb node n then node else 0

pub add : Option ℕ → ℕ → PCounter → PCounter
add node value c =
    let i = own_slot node c.num_nodes in
    record c { values = set c.values i (add64 (get_or c.values i 0) value) }

pub inc : Option ℕ → PCounter → PCounter
inc node c = add node 1 c

-- -1 in 64 bits
pub dec : Option ℕ → PCounter → PCounter
dec node c = add node (2 ^ 64 - 1) c

pub sum : List ℕ → ℕ → ℕ
sum [] acc = acc
sum (v ∷ vs) acc = sum vs (add64 acc v)

pub read : PCounter → ℕ
read c = sum c.values 0

pub reset : PCounter → PCounter
reset c = record c { values = replicate c.num_nodes 0 }

-- ===== src/Memory/Pool.antt =====
-- src/memory/pool.c: slabs of ten size classes on every node, and a header in front of each block
-- that names the slab it came from. A slab is named by its node and its class.
pub mod Classes
pub mod Search
pub mod Ownership
pub mod Create
mod Tests
use libnumakit.Prelude.{
  ℕ, ◌+◌, ◌-◌, zero, suc, Bool, true, false, Option, none, some, List, [], ◌∷◌, length, get_elem?,
  set, ltb, leb, ◌==◌, if◌then◌else◌, min, ◌&&◌,
}
use libnumakit.Memory.Os.{Os, World}
use libnumakit.Memory.Slab
use libnumakit.Memory.Slab.{Slab}

abbrev pub num_size_classes : ℕ
num_size_classes = 10

abbrev pub max_nodes : ℕ
max_nodes = 64

abbrev pub initial_capacity : ℕ
initial_capacity = 1024

-- sizeof(nkit_mempool_header_t)
abbrev pub sizeof_header : ℕ
sizeof_header = 8

abbrev pub size_classes : List ℕ
size_classes = 32 ∷ 64 ∷ 128 ∷ 256 ∷ 512 ∷ 1024 ∷ 2048 ∷ 4096 ∷ 8192 ∷ 16384 ∷ []

abbrev pub max_size : ℕ
max_size = 16384

-- `struct nkit_mempool_s`: the slabs by node and class, and what the headers in the blocks say.
pub record Pool : Type 0 where
  pub num_nodes : ℕ
  pub slabs : ℕ → ℕ → Option Slab
  pub header : ℕ → Option (ℕ × ℕ)

abbrev pub put_slab : (ℕ → ℕ → Option Slab) → ℕ → ℕ → Option Slab → ℕ → ℕ → Option Slab
put_slab f n c s n' c' = if n == n' && c == c' then s else f n' c'

abbrev pub put_header : (ℕ → Option (ℕ × ℕ)) → ℕ → ℕ × ℕ → ℕ → Option (ℕ × ℕ)
put_header f p o q = if p == q then some o else f q

-- The slabs of `destroy`, class by class on each node.
pub destroy_classes : Pool → ℕ → ℕ → ℕ → World → World
destroy_classes pool node zero c w = w
destroy_classes pool node (suc m) c w =
    let w' : World = elim (pool.slabs node c) [ none ↦ w | some s ↦ Slab.destroy s w ] in
    destroy_classes pool node m (c + 1) w'

pub destroy_nodes : Pool → ℕ → ℕ → World → World
destroy_nodes pool zero node w = w
destroy_nodes pool (suc m) node w =
    let w' = destroy_classes pool node num_size_classes 0 w in destroy_nodes pool m (node + 1) w'

unfoldable pub destroy : Pool → World → World
destroy pool w = destroy_nodes pool pool.num_nodes 0 w

-- The slabs of one node; `false` where one cannot be made, and `none` where a call does not return.
pub create_classes : Os → Pool → ℕ → List ℕ → ℕ → World → Option (Bool × Pool × World)
create_classes os pool node [] c w = some (true, pool, w)
create_classes os pool node (size ∷ sizes) c w =
    elim (Slab.create os node (sizeof_header + size) initial_capacity w) [
      | none ↦ none
      | some (none, w') ↦ some (false, pool, w')
      | some (some s, w') ↦
          create_classes os (record pool { slabs = put_slab pool.slabs node c (some s) }) node sizes
            (c + 1) w'
    ]

pub create_nodes : Os → Pool → ℕ → ℕ → World → Option (Bool × Pool × World)
create_nodes os pool zero node w = some (true, pool, w)
create_nodes os pool (suc m) node w = elim (create_classes os pool node size_classes 0 w) [
  | none ↦ none
  | some (false, pool', w') ↦ some (false, pool', w')
  | some (true, pool', w') ↦ create_nodes os pool' m (node + 1) w'
]

-- `nodes` is g_nkit_ctx.num_nodes. The block of the struct itself is left out of the world.
unfoldable pub create : Os → Bool → ℕ → World → Option (Option Pool × World)
create os initialized nodes w =
    if initialized
    then (let empty : Pool = record {
      num_nodes = min nodes max_nodes;
      slabs = λ _ _. none;
      header = λ _. none;
    } in
        elim (create_nodes os empty (min nodes max_nodes) 0 w) [
          | none ↦ none
          | some (false, pool, w') ↦ some (none, destroy pool w')
          | some (true, pool, w') ↦ some (some pool, w')
        ])
    else some (none, w)

-- The first class that is large enough.
pub find_class : ℕ → List ℕ → ℕ → Option ℕ
find_class size [] i = none
find_class size (c ∷ cs) i = if leb size c then some i else find_class size cs (i + 1)

-- `nkit_slab_alloc` on one slab of the pool; `none` where there is no such slab.
pub alloc_from : Pool → ℕ → ℕ → Option (Option ℕ × Pool)
alloc_from pool node c = elim (pool.slabs node c) [
  | none ↦ none
  | some s ↦ elim (Slab.alloc s) [
    | none ↦ none
    | some (out, s') ↦ some (out, record pool { slabs = put_slab pool.slabs node c (some s') })
  ]
]

-- The search of the other nodes, from node `n` on: the node that had a block, and the block.
pub alloc_others : ℕ → ℕ → ℕ → ℕ → Pool → Option (Option (ℕ × ℕ) × Pool)
alloc_others zero n here c pool = some (none, pool)
alloc_others (suc m) n here c pool =
    let skip = alloc_others m (n + 1) here c pool in
    if n == here then skip else elim (alloc_from pool n c) [
      | none ↦ none
      | some (some raw, pool') ↦ some (some (n, raw), pool')
      | some (none, pool') ↦ alloc_others m (n + 1) here c pool'
    ]

-- A node id that is negative (`none`) or out of range stands for node 0.
abbrev pub local_node : Option ℕ → ℕ → ℕ
local_node none nodes = 0
local_node (some n) nodes = if ltb n nodes then n else 0

-- The header is written, and the address behind it returned.
abbrev pub finish : ℕ → Option (ℕ × ℕ) × Pool → Option ℕ × Pool
finish c (none, pool) = (none, pool)
finish c (some (node, raw), pool) =
    (some (raw + sizeof_header), record pool { header = put_header pool.header raw (node, c) })

pub alloc_class : Pool → ℕ → ℕ → Option (Option (ℕ × ℕ) × Pool)
alloc_class pool here c = elim (alloc_from pool here c) [
  | none ↦ none
  | some (some raw, pool') ↦ some (some (here, raw), pool')
  | some (none, pool') ↦ alloc_others pool.num_nodes 0 here c pool'
]

-- `current` is the answer of nkit_get_current_node.
unfoldable pub alloc : Pool → Option ℕ → ℕ → Option (Option ℕ × Pool)
alloc pool current size =
    if size == 0
    then some (none, pool)
    else if ltb max_size size
    then some (none, pool)
    else elim (find_class size size_classes 0) [
      | none ↦ some (none, pool)
      | some c ↦ elim (alloc_class pool (local_node current pool.num_nodes) c) [
        | none ↦ none
        | some r ↦ some (finish c r)
      ]
    ]

unfoldable pub free : Pool → ℕ → Option Pool
free pool ptr = if ptr == 0 then some pool else elim (pool.header (ptr - sizeof_header)) [
  | none ↦ some pool
  | some (node, c) ↦ elim (pool.slabs node c) [
    | none ↦ none
    | some s ↦ elim (Slab.free s (ptr - sizeof_header)) [
      | none ↦ none
      | some s' ↦ some (record pool { slabs = put_slab pool.slabs node c (some s') })
    ]
  ]
]

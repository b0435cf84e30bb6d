-- ===== src/Structs/SkipList/Shards.antt =====
-- src/structs/skip_list.c: the operations on one shard, and on the list of all of them.
use libnumakit.Prelude.{
  sub64, add64, ℕ, zero, suc, ◌+◌, ◌-◌, ◌*◌, ◌%◌, ◌^◌, Bool, true, false, not, Option, none, some,
  List, [], ◌∷◌, ◌++◌, ltb, ◌==◌, if◌then◌else◌, get_elem?, set,
}
use libnumakit.Memory.Os.{Os, World, heap, release}
use libnumakit.Sync.Threads.{update}
use libnumakit.Structs.SkipList.{
  Nodes, Shard, SkipList, sizeof_skip, sizeof_shard, fnv1a, keys_equal, Rand, random_level,
  create_node, free_node, next_of, search_key, link, unlink,
}

abbrev pub found : Nodes → ℕ → List ℕ → Bool
found nodes n key = if n == 0 then false else keys_equal (nodes n).key key

-- The part of a put behind the search, for a key that is not there: -1 is `false`.
unfoldable pub put_new :
    Os → Rand → List ℕ → ℕ → List ℕ → Shard → Nodes → World → Option (Bool × Shard × Nodes × World)
put_new os rand key value us s nodes w =
    let (level, seed) = random_level rand (s.max_level - 1) 1 s.seed in
    let s' = record s {
      seed = seed;
      current_level = if ltb s.current_level level then level else s.current_level;
    } in
    let (p, nodes', w') = create_node os s.node_id key value level nodes w in
    if p == 0 then some (false, s', nodes', w') else elim (link level 0 p us nodes') [
      | none ↦ none
      | some nodes'' ↦ some (true, record s' { count = add64 s.count 1 }, nodes'', w')
    ]

unfoldable pub put_shard :
    Os → Rand → ℕ → List ℕ → ℕ → Shard → Nodes → World → Option (Bool × Shard × Nodes × World)
put_shard os rand fuel key value s nodes w = elim (search_key fuel nodes s key) [
  | none ↦ none
  | some (n, us) ↦
      if found nodes n key
      then some (true, s, update nodes n (record (nodes n) { value = value }), w)
      else put_new os rand key value us s nodes w
]

-- NULL is `none` inside.
unfoldable pub get_shard : ℕ → List ℕ → Shard → Nodes → Option (Option ℕ)
get_shard fuel key s nodes = elim (search_key fuel nodes s key) [
  | none ↦ none
  | some (n, us) ↦ some (if found nodes n key then some (nodes n).value else none)
]

unfoldable pub remove_shard :
    ℕ → List ℕ → Shard → Nodes → World → Option (Bool × Shard × Nodes × World)
remove_shard fuel key s nodes w = elim (search_key fuel nodes s key) [
  | none ↦ none
  | some (n, us) ↦
      if found nodes n key
      then elim (unlink (nodes n).level 0 n us nodes) [
        | none ↦ none
        | some nodes' ↦
            some (true, record s { count = sub64 s.count 1 }, nodes', free_node n nodes' w)
      ]
      else some (false, s, nodes, w)
]

-- The shard of a key, and an operation on it. A key of no bytes is refused before.
abbrev pub shard_index : SkipList → List ℕ → ℕ
shard_index sl key = fnv1a key % sl.num_shards

unfoldable pub on_shard :
    SkipList → ℕ → Option (Bool × Shard × Nodes × World) → Option (Bool × SkipList × Nodes × World)
on_shard sl i none = none
on_shard sl i (some (b, s, nodes, w)) = some (b, record sl { shards = set sl.shards i s }, nodes, w)

unfoldable pub put :
    Os → Rand → ℕ → SkipList → List ℕ → ℕ → Nodes → World → Option (Bool × SkipList × Nodes × World)
unfolding on_shard
put os rand fuel sl [] value nodes w = some (false, sl, nodes, w)
put os rand fuel sl (b ∷ key) value nodes w =
    elim (get_elem? sl.shards (shard_index sl (b ∷ key))) [
      | none ↦ none
      | some s ↦
          on_shard sl (shard_index sl (b ∷ key)) (put_shard os rand fuel (b ∷ key) value s nodes w)
    ]

unfoldable pub get : ℕ → SkipList → List ℕ → Nodes → Option (Option ℕ)
get fuel sl [] nodes = some none
get fuel sl (b ∷ key) nodes = elim (get_elem? sl.shards (shard_index sl (b ∷ key))) [
  | none ↦ none
  | some s ↦ get_shard fuel (b ∷ key) s nodes
]

unfoldable pub remove :
    ℕ → SkipList → List ℕ → Nodes → World → Option (Bool × SkipList × Nodes × World)
unfolding on_shard
remove fuel sl [] nodes w = some (false, sl, nodes, w)
remove fuel sl (b ∷ key) nodes w = elim (get_elem? sl.shards (shard_index sl (b ∷ key))) [
  | none ↦ none
  | some s ↦ on_shard sl (shard_index sl (b ∷ key)) (remove_shard fuel (b ∷ key) s nodes w)
]

unfoldable pub count : List Shard → ℕ
count [] = 0
count (s ∷ shards) = (s.count + count shards) % 2 ^ 64

-- Step back over the shards whose heads were made, when one cannot be.
unfoldable pub free_heads : List Shard → Nodes → World → World
free_heads [] nodes w = w
free_heads (s ∷ shards) nodes w = free_heads shards nodes (free_node s.head nodes w)

-- `n` shards from node `i` on; `made` are those before.
unfoldable pub make_shards :
    Os → ℕ → ℕ → ℕ → List Shard → Nodes → World → Option (List Shard) × Nodes × World
unfolding free_heads
make_shards os max_level zero i made nodes w = (some [], nodes, w)
make_shards os max_level (suc n) i made nodes w =
    let (p, nodes', w') = create_node os i [] 0 max_level nodes w in
    let s : Shard = record {
      head = p;
      max_level = max_level;
      current_level = 1;
      count = 0;
      node_id = i;
      seed = i + 42;
    } in
    let (rest, nodes'', w'') = make_shards os max_level n (i + 1) (made ++ s ∷ []) nodes' w' in
    if p == 0
    then (none, nodes', free_heads made nodes' w')
    else (elim rest [ none ↦ none | some shards ↦ some (s ∷ shards) ], nodes'', w'')

-- With `num_nodes` for numa_max_node() + 1.
unfoldable pub create : Os → ℕ → ℕ → Nodes → World → Option SkipList × Nodes × World
create os num_nodes max_level nodes w =
    let p = os.malloc w sizeof_skip in
    let w1 = heap p sizeof_skip ∷ w in
    let q = os.malloc w1 (num_nodes * sizeof_shard) in
    let w2 = heap q (num_nodes * sizeof_shard) ∷ w1 in
    let (made, nodes', w3) = make_shards os max_level num_nodes 0 [] nodes w2 in
    if not os.numa_available
    then (none, nodes, w)
    else if p == 0
    then (none, nodes, w)
    else if q == 0
    then (none, nodes, release (heap p sizeof_skip) w1)
    else elim made [
      | none ↦ (
        none,
        nodes',
        release (heap p sizeof_skip) (release (heap q (num_nodes * sizeof_shard)) w3),
      )
      | some shards ↦ (
        some (record {
          addr = p;
          array = q;
          max_level = max_level;
          num_shards = num_nodes;
          shards = shards;
        }),
        nodes',
        w3,
      )
    ]

-- Frees the nodes along level 0; `next` is read before the node is freed.
unfoldable pub free_chain : ℕ → ℕ → Nodes → World → Option World
free_chain zero curr nodes w = none
free_chain (suc fuel) curr nodes w = elim (curr == 0) [
  | true ↦ some w
  | false ↦ elim (next_of nodes curr 0) [
    | none ↦ none
    | some n ↦ free_chain fuel n nodes (free_node curr nodes w)
  ]
]

unfoldable pub free_shards : ℕ → List Shard → Nodes → World → Option World
free_shards fuel [] nodes w = some w
free_shards fuel (s ∷ shards) nodes w = elim (free_chain fuel s.head nodes w) [
  | none ↦ none
  | some w' ↦ free_shards fuel shards nodes w'
]

unfoldable pub destroy : ℕ → SkipList → Nodes → World → Option World
destroy fuel sl nodes w = elim (free_shards fuel sl.shards nodes w) [
  | none ↦ none
  | some w' ↦ some (
      release (heap sl.addr sizeof_skip)
        (release (heap sl.array (sl.num_shards * sizeof_shard)) w'))
]

-- ===== src/Structs/SkipList.antt =====
-- src/structs/skip_list.c: one skip list for each node of the machine, in one thread, with the locks
-- left out. Keys are the bytes that their pointers lead to. `none` is a read outside a node, or fuel
-- that ran out.
pub mod Order
pub mod Chain
pub mod Search
pub mod Shards
pub mod Sorted
pub mod Lookup
pub mod Relink
pub mod Link
pub mod Insert
pub mod Fresh
pub mod Thread
pub mod Put
pub mod Unlink
pub mod Without
pub mod Remove
mod Tests
use libnumakit.Prelude.{
  ℕ, zero, suc, ◌+◌, ◌-◌, ◌*◌, ◌/◌, ◌%◌, ◌^◌, Bool, true, false, not, ◌&&◌, ◌||◌, Option, none,
  some, List, [], ◌∷◌, ltb, ◌==◌, if◌then◌else◌, length, get_elem?, set, replicate, mul64,
}
use Prim.Native.Nat.{bit_xor}
use libnumakit.Memory.Os.{Os, World, Resource, heap, onnode, release}
use libnumakit.Sync.Threads.{update}

-- `nkit_skip_node_t`; a pointer is a number, and NULL is 0.
pub record Node : Type 0 where
  pub key : List ℕ
  pub value : ℕ
  pub level : ℕ
  pub next : List ℕ

-- The nodes by their addresses.
abbrev pub Nodes : Type 0
Nodes = ℕ → Node

-- `nkit_skip_shard_t` without its lock.
pub record Shard : Type 0 where
  pub head : ℕ
  pub max_level : ℕ
  pub current_level : ℕ
  pub count : ℕ
  pub node_id : ℕ
  pub seed : ℕ

-- `struct nkit_skip_s`, with the addresses of its own blocks and its nodes.
pub record SkipList : Type 0 where
  pub addr : ℕ
  pub array : ℕ
  pub max_level : ℕ
  pub num_shards : ℕ
  pub shards : List Shard

abbrev pub node_bytes : ℕ → ℕ
node_bytes level = 32 + 8 * level

-- sizeof(nkit_skip_t) and sizeof(nkit_skip_shard_t)
abbrev pub sizeof_skip : ℕ
sizeof_skip = 16

abbrev pub sizeof_shard : ℕ
sizeof_shard = 48

pub fnv1a_loop : ℕ → List ℕ → ℕ
fnv1a_loop hash [] = hash
fnv1a_loop hash (byte ∷ bytes) = fnv1a_loop (mul64 (bit_xor hash byte) 1099511628211) bytes

pub fnv1a : List ℕ → ℕ
unfolding fnv1a_loop
fnv1a bytes = fnv1a_loop 14695981039346656037 bytes

-- memcmp(a, b, n) < 0 for two keys of the same length.
pub memcmp_lt : List ℕ → List ℕ → Bool
memcmp_lt [] ys = false
memcmp_lt (x ∷ xs) [] = false
memcmp_lt (x ∷ xs) (y ∷ ys) = ltb x y || (x == y && memcmp_lt xs ys)

-- Shorter keys come first.
pub key_lt : List ℕ → List ℕ → Bool
unfolding memcmp_lt
key_lt a b = ltb (length a) (length b) || (length a == length b && memcmp_lt a b)

pub keys_equal : List ℕ → List ℕ → Bool
keys_equal [] [] = true
keys_equal [] (b ∷ bs) = false
keys_equal (a ∷ xs) [] = false
keys_equal (a ∷ xs) (b ∷ ys) = a == b && keys_equal xs ys

-- `rand_r`: the number and the next seed.
abbrev pub Rand : Type 0
Rand = ℕ → ℕ × ℕ

-- RAND_MAX / 2
abbrev pub half_rand_max : ℕ
half_rand_max = 1073741823

-- The loop of `_random_level` with `n` levels left: the level and the next seed.
pub random_level : Rand → ℕ → ℕ → ℕ → ℕ × ℕ
random_level rand zero level seed = (level, (rand seed).1)
random_level rand (suc n) level seed =
    let (r, seed') = rand seed in
    let rest = random_level rand n (level + 1) seed' in
    if ltb r half_rand_max then rest else (level, seed')

-- `_create_node`: the address, or 0.
pub create_node : Os → ℕ → List ℕ → ℕ → ℕ → Nodes → World → ℕ × Nodes × World
create_node os node_id key value level nodes w =
    let p = os.numa_alloc w (node_bytes level) node_id in
    if p == 0 then (0, nodes, w) else (
      p,
      update nodes p (record { key = key; value = value; level = level; next = replicate level 0 }),
      onnode p (node_bytes level) ∷ w,
    )

pub free_node : ℕ → Nodes → World → World
free_node p nodes w = if p == 0 then w else release (onnode p (node_bytes (nodes p).level)) w

abbrev pub next_of : Nodes → ℕ → ℕ → Option ℕ
next_of nodes p i = get_elem? (nodes p).next i

-- node->next[i] = x
pub set_next : Nodes → ℕ → ℕ → ℕ → Nodes
set_next nodes p i x = update nodes p (record (nodes p) { next = set (nodes p).next i x })

-- The inner loop of a search: along level `i` while the keys are smaller.
pub walk : ℕ → Nodes → List ℕ → ℕ → ℕ → Option ℕ
walk zero nodes key i curr = none
walk (suc fuel) nodes key i curr = elim (next_of nodes curr i) [
  | none ↦ none
  | some n ↦
      let rest = walk fuel nodes key i n in
      if n == 0 then some curr else if key_lt (nodes n).key key then rest else some curr
]

-- The outer loop, from level `i - 1` down to 0; `update[i]` is put in front of those above it.
pub descend : ℕ → Nodes → List ℕ → ℕ → ℕ → List ℕ → Option (ℕ × List ℕ)
descend fuel nodes key zero curr update = some (curr, update)
descend fuel nodes key (suc i) curr update = elim (walk fuel nodes key i curr) [
  | none ↦ none
  | some c ↦ descend fuel nodes key i c (c ∷ update)
]

-- The search: `update`, and the node behind the last smaller one.
pub search_key : ℕ → Nodes → Shard → List ℕ → Option (ℕ × List ℕ)
search_key fuel nodes s key = elim (descend fuel nodes key s.max_level s.head []) [
  | none ↦ none
  | some (curr, update) ↦ elim (next_of nodes curr 0) [ none ↦ none | some n ↦ some (n, update) ]
]

-- Level by level from `i` on, for `n` levels, the new node is put behind `update[i]`.
pub link : ℕ → ℕ → ℕ → List ℕ → Nodes → Option Nodes
link zero i new us nodes = some nodes
link (suc n) i new [] nodes = none
link (suc n) i new (u ∷ us) nodes = elim (next_of nodes u i) [
  | none ↦ none
  | some x ↦ link n (i + 1) new us (set_next (set_next nodes new i x) u i new)
]

-- Level by level, `update[i]` is led past the node, up to a level where it does not lead to it.
pub unlink : ℕ → ℕ → ℕ → List ℕ → Nodes → Option Nodes
unlink zero i curr us nodes = some nodes
unlink (suc n) i curr [] nodes = none
unlink (suc n) i curr (u ∷ us) nodes = elim (next_of nodes u i) [
  | none ↦ none
  | some x ↦
      if x == curr
      then elim (next_of nodes curr i) [
        | none ↦ none
        | some y ↦ unlink n (i + 1) curr us (set_next nodes u i y)
      ]
      else some nodes
]

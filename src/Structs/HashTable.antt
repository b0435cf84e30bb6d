-- ===== src/Structs/HashTable.antt =====
-- src/structs/hash_table.c: open addressing with Robin Hood probing, in one thread. Keys are the bytes
-- that their pointers lead to; fuel bounds the loops, and `none` is fuel that ran out.
pub mod Ends
pub mod Lookup
pub mod Tidy
pub mod Pending
pub mod Round
pub mod Place
pub mod Content
pub mod Insert
pub mod Grow
pub mod Resize
pub mod Put
pub mod Hole
pub mod Shift
pub mod Clear
pub mod Remove
mod Tests
use libnumakit.Prelude.{
  ℕ, zero, suc, ◌+◌, ◌-◌, ◌*◌, ◌/◌, ◌%◌, ◌^◌, Bool, true, false, not, ◌&&◌, ◌||◌, Option, none,
  some, List, [], ◌∷◌, ltb, leb, ◌==◌, if◌then◌else◌, length, get_or, set, replicate, bit_and,
  bit_or, sub64, mul64,
}
use Prim.Native.Nat.{bit_xor}
use libnumakit.Memory.Os.{Os, World, Resource, onnode, release}
use libnumakit.Memory.Arena
use libnumakit.Memory.Arena.{Arena}

-- `nkit_bucket_t`; a hash of 0 marks an empty bucket.
pub record Bucket : Type 0 where
  pub hash : ℕ
  pub key : List ℕ
  pub value : ℕ

abbrev pub blank : Bucket
blank = record { hash = 0; key = []; value = 0 }

-- sizeof(nkit_bucket_t) and sizeof(nkit_hash_t)
abbrev pub sizeof_bucket : ℕ
sizeof_bucket = 32

abbrev pub sizeof_hash : ℕ
sizeof_hash = 64

-- `struct nkit_hash_s`, with its address and without its lock.
pub record HashTable : Type 0 where
  pub addr : ℕ
  pub buckets : List Bucket
  pub capacity : ℕ
  pub mask : ℕ
  pub count : ℕ
  pub arena : Arena
  pub node_id : ℕ

fnv1a_loop : ℕ → List ℕ → ℕ
fnv1a_loop hash [] = hash
fnv1a_loop hash (byte ∷ bytes) = fnv1a_loop (mul64 (bit_xor hash byte) 1099511628211) bytes

-- The hash of the bytes, 1 where it would be 0.
pub fnv1a : List ℕ → ℕ
unfolding fnv1a_loop
fnv1a bytes = let hash = fnv1a_loop 14695981039346656037 bytes in if hash == 0 then 1 else hash

-- Fills up the ones below the highest.
pub next_power_of_2 : ℕ → ℕ
next_power_of_2 v =
    let v0 = sub64 v 1 in
    let v1 = bit_or v0 (v0 / 2) in
    let v2 = bit_or v1 (v1 / 2 ^ 2) in
    let v3 = bit_or v2 (v2 / 2 ^ 4) in
    let v4 = bit_or v3 (v3 / 2 ^ 8) in
    let v5 = bit_or v4 (v4 / 2 ^ 16) in let v6 = bit_or v5 (v5 / 2 ^ 32) in (v6 + 1) % 2 ^ 64

pub probe_distance : ℕ → ℕ → ℕ → ℕ
probe_distance hash slot mask = bit_and (sub64 slot (bit_and hash mask)) mask

pub keys_equal : List ℕ → List ℕ → Bool
keys_equal [] [] = true
keys_equal [] (b ∷ bs) = false
keys_equal (a ∷ xs) [] = false
keys_equal (a ∷ xs) (b ∷ ys) = a == b && keys_equal xs ys

abbrev pub minimum : ℕ → ℕ
minimum capacity = if ltb capacity 16 then 16 else capacity

-- The size of the array of buckets for a capacity.
abbrev pub buckets_bytes : ℕ → ℕ
buckets_bytes capacity = mul64 sizeof_bucket capacity

-- An arena with room for the buckets: its address is not needed further.
pub make_buckets : Os → ℕ → ℕ → World → Option Arena × World
make_buckets os node_id capacity w =
    let (made, w') = Arena.create os node_id (buckets_bytes capacity) w in
    elim made [
      | none ↦ (none, w')
      | some arena ↦
          let (block, arena') = Arena.alloc arena (buckets_bytes capacity) in
          elim block [ none ↦ (none, Arena.destroy arena' w') | some _ ↦ (some arena', w') ]
    ]

pub create : Os → ℕ → ℕ → World → Option HashTable × World
unfolding make_buckets
create os node_id requested w =
    let capacity = next_power_of_2 (minimum requested) in
    let p = os.numa_alloc w sizeof_hash node_id in
    let (made, w') = make_buckets os node_id capacity (onnode p sizeof_hash ∷ w) in
    if not os.numa_available then (none, w) else if p == 0 then (none, w) else elim made [
      | none ↦ (none, release (onnode p sizeof_hash) w')
      | some arena ↦ (
        some (record {
          addr = p;
          buckets = replicate capacity blank;
          capacity = capacity;
          mask = sub64 capacity 1;
          count = 0;
          arena = arena;
          node_id = node_id;
        }),
        w',
      )
    ]

pub destroy : HashTable → World → World
destroy t w = release (onnode t.addr sizeof_hash) (Arena.destroy t.arena w)

-- One round of the loop of `_nkit_hash_put_internal`: it ends, or goes on with the entry that is to
-- be placed and its distance from home.
pub data PutRound : Type 0 where
  placed : List Bucket → Bool → PutRound  -- whether the count goes up
  onward : List Bucket → Bucket → ℕ → PutRound

pub put_round : List Bucket → ℕ → Bool → Bucket → ℕ → ℕ → PutRound
put_round buckets mask is_rehash cur slot dist =
    let b = get_or buckets slot blank in
    let existing_dist = probe_distance b.hash slot mask in
    if b.hash == 0
    then placed (set buckets slot cur) (not is_rehash)
    else if not is_rehash && (b.hash == cur.hash && keys_equal b.key cur.key)
    then placed (set buckets slot (record b { value = cur.value })) false
    else if ltb existing_dist dist
    then onward (set buckets slot cur) b existing_dist
    else onward buckets cur dist

pub put_loop : ℕ → List Bucket → ℕ → Bool → Bucket → ℕ → ℕ → Option (List Bucket × Bool)
put_loop zero buckets mask is_rehash cur slot dist = none
put_loop (suc fuel) buckets mask is_rehash cur slot dist =
    elim (put_round buckets mask is_rehash cur slot dist) [
      | placed buckets' counts ↦ some (buckets', counts)
      | onward buckets' cur' dist' ↦
          put_loop fuel buckets' mask is_rehash cur' (bit_and (slot + 1) mask) (dist' + 1)
    ]

pub put_internal : ℕ → HashTable → Bucket → Bool → Option HashTable
put_internal fuel t cur is_rehash =
    elim (put_loop fuel t.buckets t.mask is_rehash cur (bit_and cur.hash t.mask) 0) [
      | none ↦ none
      | some (buckets, counts) ↦
          some (record t { buckets = buckets; count = if counts then t.count + 1 else t.count })
    ]

-- Puts the old buckets into the new array, in order.
pub rehash : ℕ → List Bucket → HashTable → Option HashTable
rehash fuel [] t = some t
rehash fuel (b ∷ bs) t =
    if b.hash == 0
    then rehash fuel bs t
    else elim (put_internal fuel t b true) [ none ↦ none | some t' ↦ rehash fuel bs t' ]

pub resize_into : ℕ → HashTable → ℕ → Option Arena × World → Option (HashTable × World)
unfolding rehash
resize_into fuel t capacity (none, w) = some (t, w)
resize_into fuel t capacity (some arena, w) =
    elim (rehash fuel t.buckets (record t {
      buckets = replicate capacity blank;
      capacity = capacity;
      mask = sub64 capacity 1;
    })) [ none ↦ none | some t' ↦ some (record t' { arena = arena }, Arena.destroy t.arena w) ]

-- Doubles the capacity, or changes nothing where there is no memory for it.
pub resize : Os → ℕ → HashTable → World → Option (HashTable × World)
unfolding resize_into make_buckets
resize os fuel t w =
    let capacity = mul64 t.capacity 2 in
    resize_into fuel t capacity (make_buckets os t.node_id capacity w)

abbrev pub entry : List ℕ → ℕ → Bucket
entry key value = record { hash = fnv1a key; key = key; value = value }

-- `nkit_hash_put` with a key that is not empty; 0 is the only result. A `none` inside is -1.
pub put : Os → ℕ → HashTable → List ℕ → ℕ → World → Option (Bool × HashTable × World)
put os fuel t [] value w = some (false, t, w)
put os fuel t (k ∷ key) value w =
    let resized = if leb (t.capacity * 3) (t.count * 4) then resize os fuel t w else some (t, w) in
    elim resized [
      | none ↦ none
      | some (t', w') ↦ elim (put_internal fuel t' (entry (k ∷ key) value) false) [
        | none ↦ none
        | some t'' ↦ some (true, t'', w')
      ]
    ]

-- The loop that `nkit_hash_get` and `nkit_hash_remove` begin with: the slot of the key, if it is there.
pub find : ℕ → List Bucket → ℕ → ℕ → List ℕ → ℕ → ℕ → Option (Option ℕ)
find zero buckets mask hash key slot dist = none
find (suc fuel) buckets mask hash key slot dist =
    let b = get_or buckets slot blank in
    let rest = find fuel buckets mask hash key (bit_and (slot + 1) mask) (dist + 1) in
    if b.hash == 0
    then some none
    else if ltb (probe_distance b.hash slot mask) dist
    then some none
    else if b.hash == hash && keys_equal b.key key
    then some (some slot)
    else rest

abbrev pub find_key : ℕ → HashTable → List ℕ → Option (Option ℕ)
find_key fuel t key = find fuel t.buckets t.mask (fnv1a key) key (bit_and (fnv1a key) t.mask) 0

-- NULL is `none` inside.
pub get : ℕ → HashTable → List ℕ → Option (Option ℕ)
get fuel t [] = some none
get fuel t (k ∷ key) = elim (find_key fuel t (k ∷ key)) [
  | none ↦ none
  | some none ↦ some none
  | some (some slot) ↦ some (some (get_or t.buckets slot blank).value)
]

-- Backward-shift deletion.
pub shift : ℕ → List Bucket → ℕ → ℕ → Option (List Bucket)
shift zero buckets mask empty = none
shift (suc fuel) buckets mask empty =
    let next = bit_and (empty + 1) mask in
    let nb = get_or buckets next blank in
    let rest = shift fuel (set buckets empty nb) mask next in
    if nb.hash == 0 || probe_distance nb.hash next mask == 0
    then some (set buckets empty blank)
    else rest

-- `true` for 0, `false` for -1.
pub remove : ℕ → HashTable → List ℕ → Option (Bool × HashTable)
remove fuel t [] = some (false, t)
remove fuel t (k ∷ key) = elim (find_key fuel t (k ∷ key)) [
  | none ↦ none
  | some none ↦ some (false, t)
  | some (some slot) ↦ elim (shift fuel t.buckets t.mask slot) [
    | none ↦ none
    | some buckets ↦ some (true, record t { buckets = buckets; count = sub64 t.count 1 })
  ]
]

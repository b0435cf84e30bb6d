-- ===== src/Memory/Pool/Ownership.antt =====
-- nkit_mempool_alloc and nkit_mempool_free: which slab serves a call, and who owns which block.
use libnumakit.Prelude.{ℕ, ◌+◌, ◌-◌, ◌<◌, ◌≡◌, ◌≢◌, Option, none, some, arith, refl, ◌⊎◌}
use mathlib.Core.Path.{subst}
use libnumakit.Memory.Slab
use libnumakit.Memory.Slab.{Slab}
use libnumakit.Memory.Slab.Ownership.{Owned, free-Owned}
use libnumakit.Memory.Pool.{Pool, put_slab, alloc, free, max_size, num_size_classes, sizeof_header}
use libnumakit.Memory.Pool.Search.{Blocks, PoolOwned, SlabOwned, Full, give, give_self, replace}

-- What a call of `alloc` comes to, with `c` the class of the size: NULL with class `c` full on every
-- node, or an address behind the header of a block of class `c` that nobody held; the header names the
-- block's slab, and no other header has changed.
abbrev pub Served : Pool → Blocks → Blocks → ℕ → Option ℕ → Pool → Type 0
Served pool all out c none pool' =
    PoolOwned pool' all out × ((j : ℕ) → j < pool.num_nodes → Full out j c)
Served pool all out c (some ptr) pool' =
    (node : ℕ) × (raw : ℕ) × (ptr ≡ raw + sizeof_header)
    × (node < pool.num_nodes)
    × PoolOwned pool' all (give out node c raw)
    × (pool'.header raw ≡ some (node, c))
    × ((q : ℕ) → q ≢ raw → pool'.header q ≡ pool.header q)

free_eq :
    (pool : Pool) (node c raw : ℕ) (s s' : Slab)
    → pool.header raw ≡ some (node, c)
    → pool.slabs node c ≡ some s
    → Slab.free s raw ≡ some s'
    → free pool (raw + sizeof_header)
      ≡ some (record pool { slabs = put_slab pool.slabs node c (some s') })
unfolding free
free_eq pool node c raw s s' named there ran =
    let back : raw + sizeof_header - sizeof_header ≡ raw = omega arith in
    rw (back, named, there, back, ran) (ground arith)

-- A size of 0 or above the largest class is refused, and nothing changes.
pub alloc_refuses :
    (pool : Pool) (current : Option ℕ) (size : ℕ)
    → (size ≡ 0) ⊎ (max_size < size)
    → alloc pool current size ≡ some (none, pool)
unfolding alloc
alloc_refuses pool current size h = ground arith

-- `free` of the address behind the header of a held block, when the header names the slab that the
-- block came from, returns, and that slab has the block back while all others own what they did.
pub free-PoolOwned :
    {pool : Pool} {all out : Blocks} (node c raw : ℕ)
    → raw ≢ 0
    → node < pool.num_nodes
    → c < num_size_classes
    → pool.header raw ≡ some (node, c)
    → PoolOwned pool all (give out node c raw)
    → (pool' : Pool) × (free pool (raw + sizeof_header) ≡ some pool') × PoolOwned pool' all out
free-PoolOwned {pool} {all} {out} node c raw nonzero hn hc named p =
    let o : SlabOwned pool all (give out node c raw) node c = p.each node c hn hc in
    let (s', ran, owned) =
      free-Owned raw nonzero
        (subst (λ l. Owned 10 (all node c) l o.slab) (give_self out node c raw) o.owned) in
    (
      record pool { slabs = put_slab pool.slabs node c (some s') },
      free_eq pool node c raw o.slab s' named o.there ran,
      replace pool all (give out node c raw) out node c s' p owned (λ n' c' other. rw other refl),
    )

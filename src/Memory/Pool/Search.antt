-- ===== src/Memory/Pool/Search.antt =====
-- The search of nkit_mempool_alloc: the local slab, then the other nodes in order.
use libnumakit.Prelude.{
  ℕ, ◌+◌, ◌^◌, ◌≤◌, ◌<◌, ◌≡◌, ◌≢◌, zero, suc, true, false, Option, none, some, List, ◌∷◌, length,
  arith, ◌==◌, if◌then◌else◌, ◌&&◌, refl, ℕ_discrete, sym, ◌∙◌, Bool-cases, inl, inr,
}
use mathlib.Core.Path.{subst}
use libnumakit.Memory.Slab.{Slab}
use libnumakit.Memory.Slab.Ownership.{Owned, Allocated, alloc-Allocated}
use libnumakit.Memory.Pool.{Pool, put_slab, alloc_from, alloc_others, alloc_class, num_size_classes}

-- The blocks by node and class.
abbrev pub Blocks : Type 0
Blocks = ℕ → ℕ → List ℕ

-- The slab of node `n` and class `c` owns the blocks `all n c`, and clients hold `out n c` of them.
pub record SlabOwned (pool : Pool) (all out : Blocks) (n c : ℕ) : Type 0 where
  pub slab : Slab
  pub there : pool.slabs n c ≡ some slab
  pub owned : Owned 10 (all n c) (out n c) slab

pub record PoolOwned (pool : Pool) (all out : Blocks) : Type 0 where
  pub some_node : 0 < pool.num_nodes
  pub each : (n c : ℕ) → n < pool.num_nodes → c < num_size_classes → SlabOwned pool all out n c

-- One more block of a slab is held.
abbrev pub give : Blocks → ℕ → ℕ → ℕ → Blocks
give out n c raw n' c' = if n == n' && c == c' then raw ∷ out n' c' else out n' c'

abbrev pub Full : Blocks → ℕ → ℕ → Type 0
Full out n c = length (out n c) ≡ 2 ^ 10

pub give_self : (out : Blocks) (n c raw : ℕ) → give out n c raw n c ≡ raw ∷ out n c
give_self out n c raw = ground arith

same_place : (n c n' c' : ℕ) → (n == n' && c == c') ≡ true → (n ≡ n') × (c ≡ c')
same_place n c n' c' h = ground arith

-- A slab is replaced by one that owns other blocks, and the rest of the pool stays.
pub replace :
    (pool : Pool) (all out out' : Blocks) (n c : ℕ) (s : Slab)
    → PoolOwned pool all out
    → Owned 10 (all n c) (out' n c) s
    → ((n' c' : ℕ) → (n == n' && c == c') ≡ false → out' n' c' ≡ out n' c')
    → PoolOwned (record pool { slabs = put_slab pool.slabs n c (some s) }) all out'
replace pool all out out' n c s o new same = record {
  some_node = o.some_node;
  each = λ n' c' hn hc. elim (Bool-cases (n == n' && c == c')) [
    | inl here ↦ at_place n' c' (same_place n c n' c' here)
    | inr other ↦
        let old : SlabOwned pool all out n' c' = o.each n' c' hn hc in
        record {
          slab = old.slab;
          there = rw other old.there;
          owned = subst (λ l. Owned 10 (all n' c') l old.slab) (sym (same n' c' other)) old.owned;
        }
  ];
}
  where
    pool' : Pool
    pool' = record pool { slabs = put_slab pool.slabs n c (some s) }

    at_place : (n' c' : ℕ) → (n ≡ n') × (c ≡ c') → SlabOwned pool' all out' n' c'
    at_place n' c' (en, ec) =
        subst (λ a. SlabOwned pool' all out' a c') en
          (subst (λ b. SlabOwned pool' all out' n b) ec
            (record { slab = s; there = ground arith; owned = new }))

-- What a call of `nkit_slab_alloc` on the slab of node `n` and class `c` leaves.
abbrev pub Took : Pool → Blocks → Blocks → ℕ → ℕ → Option ℕ → Pool → Type 0
Took pool all out n c none pool' =
    PoolOwned pool' all out
    × Full out n c
    × (pool'.num_nodes ≡ pool.num_nodes)
    × (pool'.header ≡ pool.header)
Took pool all out n c (some raw) pool' =
    PoolOwned pool' all (give out n c raw)
    × (pool'.num_nodes ≡ pool.num_nodes)
    × (pool'.header ≡ pool.header)

pub alloc_from-Took :
    (pool : Pool) (all out : Blocks) (n c : ℕ)
    → PoolOwned pool all out
    → n < pool.num_nodes
    → c < num_size_classes
    → (o : Option ℕ) × (pool' : Pool) × (alloc_from pool n c ≡ some (o, pool'))
      × Took pool all out n c o pool'
unfolding alloc_from
alloc_from-Took pool all out n c p hn hc =
    let (o, s', ran, a) = alloc-Allocated (p.each n c hn hc).owned in
    (
      o,
      record pool { slabs = put_slab pool.slabs n c (some s') },
      ground (arith, (p.each n c hn hc).there),
      took o s' a,
    )
  where
    took :
        (o : Option ℕ) (s' : Slab)
        → Allocated 10 (all n c) (out n c) o s'
        → Took pool all out n c o (record pool { slabs = put_slab pool.slabs n c (some s') })
    took none s' (owned, full) =
        (replace pool all out out n c s' p owned (λ _ _ _. refl), full, refl, refl)
    took (some raw) s' owned = (
      replace pool all out (give out n c raw) n c s' p
          (subst (λ l. Owned 10 (all n c) l s') (sym (give_self out n c raw)) owned)
          (λ n' c' other. rw other),
      refl,
      refl,
    )

-- What the search of some nodes leaves: NULL if all of them that it asks are full.
abbrev pub Found : Pool → Blocks → Blocks → ℕ → (ℕ → Type 0) → Option (ℕ × ℕ) → Pool → Type 0
Found pool all out c Asked none pool' =
    PoolOwned pool' all out × ((j : ℕ) → Asked j → Full out j c) × (pool'.header ≡ pool.header)
Found pool all out c Asked (some (node, raw)) pool' =
    PoolOwned pool' all (give out node c raw)
    × (node < pool.num_nodes)
    × (pool'.header ≡ pool.header)

abbrev Between : ℕ → ℕ → ℕ → ℕ → Type 0
Between n m here j = (n ≤ j) × (j < n + m) × (j ≢ here)

-- A search that goes on after one full node.
Found-next :
    (pool pool' pool'' : Pool) (all out : Blocks) (n m here c : ℕ) (o : Option (ℕ × ℕ))
    → pool'.num_nodes ≡ pool.num_nodes
    → pool'.header ≡ pool.header
    → (n ≢ here → Full out n c)
    → Found pool' all out c (Between (n + 1) m here) o pool''
    → Found pool all out c (Between n (suc m) here) o pool''
Found-next pool pool' pool'' all out n m here c none nodes header full (p, each, h) = (
  p,
  λ j (lo, hi, ne). elim (ℕ_discrete n j) [
    | yes e ↦ subst (λ t. Full out t c) e (full (λ z. ne (sym e ∙ z)))
    | no other ↦ each j (omega arith, omega arith, ne)
  ],
  h ∙ header,
)
Found-next pool pool' pool'' all out n m here c (some (node, raw)) nodes header full (p, lt, h) =
    (p, rw nodes at lt, h ∙ header)

-- One node of the search that is not the local one; `rest` searches the nodes behind it.
ask_node :
    (m n here c : ℕ) (pool : Pool) (all out : Blocks) (o : Option ℕ) (pool' : Pool)
    → (n == here) ≡ false
    → n < pool.num_nodes
    → n + suc m ≤ pool.num_nodes
    → alloc_from pool n c ≡ some (o, pool')
    → Took pool all out n c o pool'
    → ((q : Pool)
        → PoolOwned q all out
        → n + 1 + m ≤ q.num_nodes
        → (o : Option (ℕ × ℕ)) × (q' : Pool) × (alloc_others m (n + 1) here c q ≡ some (o, q'))
          × Found q all out c (Between (n + 1) m here) o q')
    → (o : Option (ℕ × ℕ)) × (q' : Pool) × (alloc_others (suc m) n here c pool ≡ some (o, q'))
      × Found pool all out c (Between n (suc m) here) o q'
unfolding alloc_others
ask_node m n here c pool all out none pool' other lt hn ran (p, full, nodes, header) rest =
    let (o, q', ran', found) = rest pool' p (rw nodes (omega arith)) in
    (
      o,
      q',
      rw (other, ran) ran',
      Found-next pool pool' q' all out n m here c o nodes header (λ _. full) found,
    )
ask_node m n here c pool all out (some raw) pool' other lt hn ran (p, nodes, header) rest =
    (some (n, raw), pool', rw (other, ran) refl, (p, lt, header))

alloc_others-Found :
    (m n here c : ℕ) (pool : Pool) (all out : Blocks)
    → PoolOwned pool all out
    → n + m ≤ pool.num_nodes
    → c < num_size_classes
    → (o : Option (ℕ × ℕ)) × (pool' : Pool) × (alloc_others m n here c pool ≡ some (o, pool'))
      × Found pool all out c (Between n m here) o pool'
unfolding alloc_others
alloc_others-Found zero n here c pool all out p hn hc =
    (none, pool, refl, (p, λ j b. absurd (omega arith), refl))
alloc_others-Found (suc m) n here c pool all out p hn hc = elim (Bool-cases (n == here)) [
  | inl own ↦
      let (o, pool', ran, found) =
        alloc_others-Found m (n + 1) here c pool all out p (omega arith) hc in
      (
        o,
        pool',
        rw own ran,
        Found-next pool pool pool' all out n m here c o refl refl (λ ne. absurd (ground arith))
            found,
      )
  | inr other ↦
      let (o, pool', ran, took) = alloc_from-Took pool all out n c p (omega arith) hc in
      ask_node m n here c pool all out o pool' other (omega arith) hn ran took
        (λ q p lt. alloc_others-Found m (n + 1) here c q all out p lt hc)
]

abbrev pub Other : Pool → ℕ → Type 0
Other pool j = j < pool.num_nodes

-- The local slab is asked first, then the others: a block, or NULL with the class full on every node.
pub class_from :
    (pool : Pool) (all out : Blocks) (here c : ℕ) (o : Option ℕ) (pool' : Pool)
    → here < pool.num_nodes
    → c < num_size_classes
    → alloc_from pool here c ≡ some (o, pool')
    → Took pool all out here c o pool'
    → (o : Option (ℕ × ℕ)) × (q : Pool) × (alloc_class pool here c ≡ some (o, q))
      × Found pool all out c (Other pool) o q
unfolding alloc_class
class_from pool all out here c (some raw) pool' lt hc ran (p, nodes, header) =
    (some (here, raw), pool', rw (ran, alloc_class) refl, (p, lt, header))
class_from pool all out here c none pool' lt hc ran (p, full, nodes, header) =
    let (o, q, ran', found) =
      alloc_others-Found pool.num_nodes 0 here c pool' all out p (omega arith) hc in
    (o, q, rw (ran, alloc_class) ran', widen o q found)
  where
    widen :
        (o : Option (ℕ × ℕ)) (q : Pool)
        → Found pool' all out c (Between 0 pool.num_nodes here) o q
        → Found pool all out c (Other pool) o q
    widen none q (p, each, h) = (
      p,
      λ j lt. elim (ℕ_discrete j here) [
        | yes e ↦ subst (λ t. Full out t c) (sym e) full
        | no ne ↦ each j (omega arith, omega arith, ne)
      ],
      h ∙ header,
    )
    widen (some (node, raw)) q (p, lt, h) = (p, rw nodes at lt, h ∙ header)

-- ===== src/Memory/Pool/Create.antt =====
-- nkit_mempool_create: every slab of a new pool owns all its blocks.
use libnumakit.Prelude.{
  ℕ, zero, suc, ◌+◌, ◌^◌, ◌≤◌, ◌<◌, ◌≡◌, ◌≢◌, ◌⊎◌, inl, inr, refl, sym, ◌∙◌, Bool, true, false,
  ◌&&◌, Option, none, some, List, [], ◌∷◌, ◌==◌, arith, length, min, Bool-cases, dec_lt,
}
use mathlib.Core.Path.{subst}
use native.Mathlib.Nat.{pow-le-pow_right}
use libnumakit.Memory.Os.{Os, World, map_failed}
use libnumakit.Memory.Arena.Blocks.{lines}
use libnumakit.Memory.Slab
use libnumakit.Memory.Slab.{Slab}
use libnumakit.Memory.Slab.Create.{blocks, length-blocks, Built, create-Built}
use libnumakit.Memory.Slab.Ownership.{Owned}
use libnumakit.Memory.Pool
use libnumakit.Memory.Pool.{
  Pool, put_slab, create_classes, create_nodes, create, size_classes, num_size_classes,
  initial_capacity, sizeof_header, max_nodes,
}
use libnumakit.Memory.Pool.Search.{Blocks, SlabOwned, PoolOwned}

-- A slab all of whose 1024 blocks are free.
abbrev pub Fresh : Slab → Type 0
Fresh s = Owned 10 (blocks s.base s.obj_size 0 1024) [] s

ten_of : (k : ℕ) → 2 ^ k ≡ 1024 → k ≡ 10
ten_of k e = elim (dec_lt k 10) [
  | yes below ↦
      let small : k ≤ 9 = omega arith in
      let bound : 2 ^ k ≤ 2 ^ 9 = pow-le-pow_right {n = 2} (omega arith) small in
      absurd (omega (arith, bound, e))
  | no above ↦ elim (dec_lt 10 k) [
    | yes beyond ↦
        let large : 11 ≤ k = omega arith in
        let bound : 2 ^ 11 ≤ 2 ^ k = pow-le-pow_right {n = 2} (omega arith) large in
        absurd (omega (arith, bound, e))
    | no here ↦ omega arith
  ]
]

Built-Fresh :
    (size : ℕ) (w : World) (s : Slab) (w' : World) → Built 1024 size w (some (some s, w')) → Fresh s
Built-Fresh size w s w' ((k, o), _, eq, _, _, _) =
    let ten : k ≡ 10 = ten_of k (sym o.enough ∙ length-blocks s.base size 0 1024) in
    subst (λ n. Owned 10 (blocks s.base n 0 1024) [] s) (sym eq)
      (subst (λ j. Owned j (blocks s.base size 0 1024) [] s) ten o)

abbrev pub Ready : Pool → ℕ → ℕ → Type 0
Ready pool n c = (s : Slab) × (pool.slabs n c ≡ some s) × Fresh s

-- The slabs before class `c` of node `node` are made.
abbrev pub Done : Pool → ℕ → ℕ → Type 0
Done pool node c =
    (n c' : ℕ) → ((n < node) × (c' < num_size_classes)) ⊎ ((n ≡ node) × (c' < c)) → Ready pool n c'

Done-put :
    (pool : Pool) (node c : ℕ) (s : Slab)
    → Fresh s
    → Done pool node c
    → Done (record pool { slabs = put_slab pool.slabs node c (some s) }) node (c + 1)
Done-put pool node c s fresh d n c' h = elim (Bool-cases (node == n && c == c')) [
  | inl here ↦ (s, rw here refl, fresh)
  | inr other ↦
      let (s', there, fresh') = d n c' (earlier n c' other h) in (s', rw other there, fresh')
]
  where
    earlier :
        (n c' : ℕ)
        → (node == n && c == c') ≡ false
        → ((n < node) × (c' < num_size_classes)) ⊎ ((n ≡ node) × (c' < c + 1))
        → ((n < node) × (c' < num_size_classes)) ⊎ ((n ≡ node) × (c' < c))
    earlier n c' other h = ground arith

Done-next : (pool : Pool) (node : ℕ) → Done pool node num_size_classes → Done pool (node + 1) 0
Done-next pool node d n c' h = d n c' (ground arith)

abbrev Fits : List ℕ → Type 0
Fits [] = Unit
Fits (size ∷ sizes) = (size ≤ 16384) × Fits sizes

-- What the loops may come to.
abbrev pub Outcome : Pool → ℕ → ℕ → Option (Bool × Pool × World) → Type 0
Outcome pool node c none = ⊥
Outcome pool node c (some (false, pool', w')) = Unit
Outcome pool node c (some (true, pool', w')) =
    Done pool' node c × (pool'.num_nodes ≡ pool.num_nodes)

-- What is free in a pool that is just made.
abbrev pub stock : Pool → Blocks
stock pool n c = elim (pool.slabs n c) [ none ↦ [] | some s ↦ blocks s.base s.obj_size 0 1024 ]

abbrev pub Stocked : ℕ → Option (Option Pool × World) → Type 0
Stocked nodes none = ⊥
Stocked nodes (some (none, w')) = Unit
Stocked nodes (some (some pool, w')) =
    (pool.num_nodes ≡ min nodes max_nodes) × PoolOwned pool (stock pool) (λ _ _. [])

module _ (os : Os) (mapped : (w : World) (n : ℕ) (h : Bool) → os.mmap w n h ≢ 0)
    (lower_half : (w : World) (n : ℕ) (h : Bool)
      → os.mmap w n h ≢ map_failed
      → os.mmap w n h + n ≤ 2 ^ 63) where
  class-Outcome :
      (pool : Pool) (node size : ℕ) (sizes : List ℕ) (c : ℕ) (w : World)
      → Done pool node c
      → c + suc (length sizes) ≡ num_size_classes
      → (made : Option (Option Slab × World))
      → Built initial_capacity (lines (sizeof_header + size)) w made
      → ((p : Pool) (w' : World)
          → Done p node (c + 1)
          → c + 1 + length sizes ≡ num_size_classes
          → Outcome p node num_size_classes (create_classes os p node sizes (c + 1) w'))
      → Outcome pool node num_size_classes (elim made [
        | none ↦ none
        | some (none, w') ↦ some (false, pool, w')
        | some (some s, w') ↦
            create_classes os
              (record pool { slabs = put_slab pool.slabs node c (some s) })
              node
              sizes
              (c + 1)
              w'
      ])
  class-Outcome pool node size sizes c w d ten none b rest = b
  class-Outcome pool node size sizes c w d ten (some (none, w')) b rest = tt
  class-Outcome pool node size sizes c w d ten (some (some s, w')) b rest =
      rest (record pool { slabs = put_slab pool.slabs node c (some s) }) w'
        (Done-put pool node c s (Built-Fresh (lines (sizeof_header + size)) w s w' b) d)
        (omega arith)

  classes-Outcome :
      (sizes : List ℕ) (pool : Pool) (node c : ℕ) (w : World)
      → Fits sizes
      → Done pool node c
      → c + length sizes ≡ num_size_classes
      → Outcome pool node num_size_classes (create_classes os pool node sizes c w)
  unfolding create_classes
  classes-Outcome [] pool node c w fits d ten = (subst (Done pool node) (omega arith) d, refl)
  classes-Outcome (size ∷ sizes) pool node c w fits d ten =
      class-Outcome pool node size sizes c w d ten
        (Slab.create os node (sizeof_header + size) initial_capacity w)
        (create-Built os mapped lower_half node (sizeof_header + size) initial_capacity w
          (omega arith) (omega (arith, fits.0)) (omega (arith, fits.0)))
        (λ p w' d' ten'. classes-Outcome sizes p node (c + 1) w' fits.1 d' ten')

  some_class : Fits size_classes
  some_class = (
    omega arith,
    (
      omega arith,
      (
        omega arith,
        (
          omega arith,
          (
            omega arith,
            (omega arith, (omega arith, (omega arith, (omega arith, (omega arith, tt))))),
          ),
        ),
      ),
    ),
  )

  node-Outcome :
      (pool : Pool) (node m : ℕ) (made : Option (Bool × Pool × World))
      → Outcome pool node num_size_classes made
      → ((p : Pool) (w' : World)
          → Done p (node + 1) 0
          → Outcome p (node + 1 + m) 0 (create_nodes os p m (node + 1) w'))
      → Outcome pool (node + suc m) 0 (elim made [
        | none ↦ none
        | some (false, pool', w') ↦ some (false, pool', w')
        | some (true, pool', w') ↦ create_nodes os pool' m (node + 1) w'
      ])
  node-Outcome pool node m none o rest = o
  node-Outcome pool node m (some (false, pool', w')) o rest = tt
  node-Outcome pool node m (some (true, pool', w')) (d, same) rest =
      renumber pool pool' (node + 1 + m) (node + suc m) (create_nodes os pool' m (node + 1) w') same
        (omega arith) (rest pool' w' (Done-next pool' node d))
    where
      renumber :
          (pool pool' : Pool) (a b : ℕ) (o : Option (Bool × Pool × World))
          → pool'.num_nodes ≡ pool.num_nodes
          → a ≡ b
          → Outcome pool' a 0 o
          → Outcome pool b 0 o
      renumber pool pool' a b none same e o = o
      renumber pool pool' a b (some (false, q, w)) same e o = tt
      renumber pool pool' a b (some (true, q, w)) same e (d, nodes) =
          (subst (λ n. Done q n 0) e d, nodes ∙ same)

  nodes-Outcome :
      (m : ℕ) (pool : Pool) (node : ℕ) (w : World)
      → Done pool node 0
      → Outcome pool (node + m) 0 (create_nodes os pool m node w)
  unfolding create_nodes
  nodes-Outcome zero pool node w d = (subst (λ n. Done pool n 0) (omega arith) d, refl)
  nodes-Outcome (suc m) pool node w d =
      node-Outcome pool node m (create_classes os pool node size_classes 0 w)
        (classes-Outcome size_classes pool node 0 w some_class d refl)
        (λ p w' d'. nodes-Outcome m p (node + 1) w' d')

  create_cases :
      (nodes : ℕ) (pool : Pool) (made : Option (Bool × Pool × World))
      → 0 < nodes
      → pool.num_nodes ≡ min nodes max_nodes
      → Outcome pool (min nodes max_nodes) 0 made
      → Stocked nodes (elim made [
        | none ↦ none
        | some (false, pool', w') ↦ some (none, Pool.destroy pool' w')
        | some (true, pool', w') ↦ some (some pool', w')
      ])
  create_cases nodes pool none pos e o = o
  create_cases nodes pool (some (false, pool', w')) pos e o = tt
  create_cases nodes pool (some (true, pool', w')) pos e (d, same) = (
    same ∙ e,
    record {
      some_node = omega (arith, same, e, pos);
      each = λ n c hn hc. owned n c (d n c (inl (omega (arith, hn, same, e), hc)));
    },
  )
    where
      owned : (n c : ℕ) → Ready pool' n c → SlabOwned pool' (stock pool') (λ _ _. []) n c
      owned n c (s, there, fresh) = record {
        slab = s;
        there = there;
        owned = rw (there, stock) fresh;
      }

  -- With memory below 2^63, on an initialised library with at least one node, `create` of a pool
  -- always returns: NULL, or a pool of the library's nodes, 64 at most, in which every slab of
  -- every node and class owns its 1024 blocks, all of them free.
  pub create-Stocked : (nodes : ℕ) (w : World) → 0 < nodes → Stocked nodes (create os true nodes w)
  unfolding create
  create-Stocked nodes w pos =
      let empty : Pool = record {
        num_nodes = min nodes max_nodes;
        slabs = λ _ _. none;
        header = λ _. none;
      } in
      create_cases nodes empty (create_nodes os empty (min nodes max_nodes) 0 w) pos refl (
        start empty (min nodes max_nodes) (create_nodes os empty (min nodes max_nodes) 0 w)
          (nodes-Outcome (min nodes max_nodes) empty 0 w (λ n c h. absurd (nothing n c h))))
    where
      nothing : (n c : ℕ) → ((n < 0) × (c < num_size_classes)) ⊎ ((n ≡ 0) × (c < 0)) → ⊥
      nothing n c h = ground arith

      start :
          (p : Pool) (m : ℕ) (o : Option (Bool × Pool × World))
          → Outcome p (0 + m) 0 o
          → Outcome p m 0 o
      start p m o h = subst (λ k. Outcome p k 0 o) {x = 0 + m} {y = m} (omega arith) h

-- ===== src/Structs/SkipList/Put.antt =====
-- `nkit_skip_put` on a shard acts on its map.
use libnumakit.Prelude.{
  add64, ℕ, ◌-◌, ◌≤◌, ◌<◌, ◌≡◌, ◌≢◌, ◌⊎◌, inl, inr, refl, ap, ap₂, sym, ◌∙◌, Bool, true, false,
  ◌&&◌, Option, none, some, List, [], ◌∷◌, ◌++◌, length, arith, Bool-cases, if◌then◌else◌,
  get_elem?, ℕ_discrete,
}
use mathlib.Core.Path.{subst}
use libnumakit.Memory.Os.{Os, World, onnode}
use libnumakit.Sync.Threads.{update}
use libnumakit.Structs.SkipList.{Nodes, Shard, node_bytes, key_lt, keys_equal, Rand}
use libnumakit.Structs.SkipList.Order.{keys_equal_eq}
use libnumakit.Structs.SkipList.Chain.{Chain, All, Smaller}
use libnumakit.Structs.SkipList.Search.{lasts}
use libnumakit.Structs.SkipList.Shards.{found, put_new, put_shard}
use libnumakit.Structs.SkipList.Lookup.{first, search_result, lookup-Split}
use libnumakit.Structs.SkipList.Sorted.{
  Before, Sorted, Shaped, Differs, IsSkip, lookup, Split, lookup-Smaller,
}
use libnumakit.Structs.SkipList.Relink.{Chain-move, All-zip, All-pointwise}
use libnumakit.Structs.SkipList.Thread.{linked, inserted-lookup, inserted-IsSkip}
use libnumakit.Structs.SkipList.Fresh.{
  drawn, aged, random_level_bounds, put_new-failed, put_new-made,
}

-- What a put comes to: a list with the value at the key, or, when no memory can be had for the node,
-- the list as it was.
pub record PutDone (os : Os) (rand : Rand) (key : List ℕ) (value : ℕ) (s : Shard) (nodes : Nodes)
    (w : World) (l : List ℕ) (ok : Bool) (s' : Shard) (nodes' : Nodes) (l' : List ℕ) : Type 0 where
  pub valid : IsSkip nodes' s' l'
  pub same_head : s'.head ≡ s.head
  pub same_levels : s'.max_level ≡ s.max_level
  pub map :
      (k : List ℕ)
      → lookup nodes' k l' ≡ (if ok && keys_equal key k then some value else lookup nodes k l)
  pub memory : (ok ≡ true) ⊎ (os.numa_alloc w (node_bytes (drawn rand s)) s.node_id ≡ 0)

-- The value of a node that is there.
module _ (nodes : Nodes) (b value : ℕ) where
  abbrev valued : Nodes
  valued = update nodes b (record (nodes b) { value = value })

  valued-key : (x : ℕ) → (valued x).key ≡ (nodes x).key
  valued-key x = ground arith

  valued-level : (x : ℕ) → (valued x).level ≡ (nodes x).level
  valued-level x = ground arith

  valued-next : (x : ℕ) → (valued x).next ≡ (nodes x).next
  valued-next x = ground arith

  valued-Before : (c : ℕ) (l : List ℕ) → All (Before nodes c) l → All (Before valued c) l
  valued-Before c [] h = tt
  valued-Before c (d ∷ l) h =
      (ap₂ key_lt (valued-key c) (valued-key d) ∙ h.0, valued-Before c l h.1)

  valued-Sorted : (l : List ℕ) → Sorted nodes l → Sorted valued l
  valued-Sorted [] h = tt
  valued-Sorted (c ∷ l) h = (valued-Before c l h.0, valued-Sorted l h.1)

  valued-Shaped : (top : ℕ) (l : List ℕ) → All (Shaped nodes top) l → All (Shaped valued top) l
  valued-Shaped top [] h = tt
  valued-Shaped top (c ∷ l) h = (
    (
      h.0.0,
      omega (arith, valued-level c, h.0.1),
      omega (arith, valued-level c, h.0.2),
      ap length (valued-next c) ∙ h.0.3 ∙ sym (valued-level c),
    ),
    valued-Shaped top l h.1,
  )

  valued-Chain : (i a : ℕ) (l : List ℕ) → Chain nodes i a l → Chain valued i a l
  valued-Chain i a l c =
      Chain-move nodes valued i a a l (ap (λ x. get_elem? x i) (valued-next a))
        (All-pointwise l (λ x. (valued-level x, ap (λ y. get_elem? y i) (valued-next x)))) c

  valued-other :
      (k : List ℕ) (l : List ℕ)
      → keys_equal (nodes b).key k ≡ false
      → lookup valued k l ≡ lookup nodes k l
  valued-other k [] e = refl
  valued-other k (c ∷ l) e = elim (ℕ_discrete b c) [
    | yes same ↦
        let skip : keys_equal (nodes c).key k ≡ false =
          ap (λ x. keys_equal (nodes x).key k) (sym same) ∙ e in
        ap (λ x. if keys_equal x k then some (valued c).value else lookup valued k l) (valued-key c)
        ∙ ap (λ t. if t then some (valued c).value else lookup valued k l) skip
        ∙ valued-other k l e
        ∙ sym (ap (λ t. if t then some (nodes c).value else lookup nodes k l) skip)
    | no ne ↦
        let kept : valued c ≡ nodes c = ground arith in
        ap (λ m. if keys_equal m.key k then some m.value else lookup valued k l) kept
        ∙ ap (λ y. if keys_equal (nodes c).key k then some (nodes c).value else y)
            (valued-other k l e)
  ]

  valued_self : (valued b).value ≡ value
  valued_self = ground arith

  valued-lookup :
      (k : List ℕ) (p q : List ℕ)
      → All (Smaller nodes (nodes b).key) p
      → lookup valued k (p ++ b ∷ q)
        ≡ (if keys_equal (nodes b).key k then some value else lookup nodes k (p ++ b ∷ q))
  valued-lookup k p q h = elim (Bool-cases (keys_equal (nodes b).key k)) [
    | inl e ↦
        let same = keys_equal_eq (nodes b).key k e in
        lookup-Smaller valued k p (b ∷ q) (
          All-zip {P = Smaller nodes (nodes b).key} {Q = Smaller nodes (nodes b).key} p
            (λ x a a'. (a.0, ap₂ key_lt (valued-key x) (sym same) ∙ a.1)) h h)
        ∙ ap₂ (λ t x. if t then some x else lookup valued k q)
            (ap (λ x. keys_equal x k) (valued-key b) ∙ e) valued_self
        ∙ sym (ap (λ t. if t then some value else lookup nodes k (p ++ b ∷ q)) e)
    | inr e ↦
        valued-other k (p ++ b ∷ q) e
        ∙ sym (ap (λ t. if t then some value else lookup nodes k (p ++ b ∷ q)) e)
  ]

pub found-real : (nodes : Nodes) (n : ℕ) (key : List ℕ) → found nodes n key ≡ true → n ≢ 0
found-real nodes n key e z = ground arith

pub found-key :
    (nodes : Nodes) (n : ℕ) (key : List ℕ) → found nodes n key ≡ true → (nodes n).key ≡ key
found-key nodes n key e =
    keys_equal_eq (nodes n).key key
      (elim (ℕ_discrete n 0) [ yes z ↦ absurd (found-real nodes n key e z) | no ne ↦ ground arith ])

module _ (os : Os) (rand : Rand) (fuel : ℕ) (key : List ℕ) (value : ℕ) {s : Shard} {nodes : Nodes}
    (w : World) {l : List ℕ} (v : IsSkip nodes s l) (enough : length l < fuel)
    (free : (n : ℕ) → All (Differs (os.numa_alloc w n s.node_id)) (s.head ∷ l)) where
  abbrev pub Returned : Option (Bool × Shard × Nodes × World) → Type 0
  Returned o =
      (ok : Bool) × (s' : Shard) × (nodes' : Nodes) × (w' : World) × (l' : List ℕ) × (o
        ≡ some (ok, s', nodes', w'))
      × PutDone os rand key value s nodes w l ok s' nodes' l'

  put_new_lem :
      (p q : List ℕ)
      → Split nodes key l p q
      → lookup nodes key l ≡ none
      → Returned (put_new os rand key value (lasts nodes s.head p s.max_level []) s nodes w)
  put_new_lem p q split absent =
      elim (ℕ_discrete (os.numa_alloc w (node_bytes (drawn rand s)) s.node_id) 0) [
        | yes z ↦ (
          false,
          aged rand s,
          nodes,
          w,
          l,
          put_new-failed os rand key value (lasts nodes s.head p s.max_level []) s nodes w z,
          record {
            valid = record {
              top = v.top;
              head_next = v.head_next;
              chains = v.chains;
              sorted = v.sorted;
              shaped = v.shaped;
              distinct = v.distinct;
              counted = v.counted;
            };
            same_head = refl;
            same_levels = refl;
            map = λ k. refl;
            memory = inr z;
          },
        )
        | no ne ↦
            let (lo, hi) = random_level_bounds rand (s.max_level - 1) 1 s.seed in
            let new = os.numa_alloc w (node_bytes (drawn rand s)) s.node_id in
            let f = free (node_bytes (drawn rand s)) in
            let top : drawn rand s ≤ s.max_level = omega (arith, hi, v.top) in
            let (nodes', ran, t) = linked v key value split absent new (drawn rand s) ne lo top f in
            (
              true,
              record (aged rand s) { count = add64 s.count 1 },
              nodes',
              onnode new (node_bytes (drawn rand s)) ∷ w,
              p ++ new ∷ q,
              put_new-made os rand key value (lasts nodes s.head p s.max_level []) s nodes w ne ran,
              record {
                valid =
                    inserted-IsSkip v key value split absent new (drawn rand s) ne lo top f t
                      (record (aged rand s) { count = add64 s.count 1 }) refl refl refl;
                same_head = refl;
                same_levels = refl;
                map = inserted-lookup v key value split absent new (drawn rand s) ne lo top f t;
                memory = inl refl;
              },
            )
      ]

  hit_lem :
      (p q : List ℕ)
      → Split nodes key l p q
      → found nodes (first q) key ≡ true
      → PutDone os rand key value s nodes w l true s (valued nodes (first q) value) l
  hit_lem p [] split e = absurd (found-real nodes 0 key e refl)
  hit_lem p (b ∷ q) split e = record {
    valid = record {
      top = v.top;
      head_next = ap length (valued-next nodes b value s.head) ∙ v.head_next;
      chains = λ i lt. valued-Chain nodes b value i s.head l (v.chains i lt);
      sorted = valued-Sorted nodes b value l v.sorted;
      shaped = valued-Shaped nodes b value s.max_level l v.shaped;
      distinct = v.distinct;
      counted = v.counted;
    };
    same_head = refl;
    same_levels = refl;
    map = λ k.
        ap (lookup (valued nodes b value) k) split.whole
        ∙ valued-lookup nodes b value k p q
            (subst (λ x. All (Smaller nodes x) p) (sym (found-key nodes b key e)) split.smaller)
        ∙ ap₂ (λ x y. if keys_equal x k then some value else lookup nodes k y)
            (found-key nodes b key e) (sym split.whole);
    memory = inl refl;
  }

  -- `put` on a shard whose levels thread the sorted list `l`, with more fuel than `l` has nodes and
  -- an allocator that gives no address in use, always returns and never reads outside a node: with
  -- 0, and then the levels thread a sorted list in which the key has the value and every other key
  -- what it had; or with -1 and the map unchanged, when no memory can be had for the node. The head
  -- and the number of levels stay.
  pub put_shard_lem : Returned (put_shard os rand fuel key value s nodes w)
  unfolding put_shard
  put_shard_lem =
      let (p, q, split, ran) = search_result v fuel key enough in
      elim (Bool-cases (found nodes (first q) key)) [
        | inl e ↦ (
          true,
          s,
          valued nodes (first q) value,
          w,
          l,
          rw (ran, put_shard) (rw e refl),
          hit_lem p q split e,
        )
        | inr e ↦ subst Returned (sym (rw (ran, put_shard) (rw e refl))) (
            put_new_lem p q split (
              lookup-Split v fuel key p q split
              ∙ ap (λ t. if t then some (nodes (first q)).value else none) e))
      ]

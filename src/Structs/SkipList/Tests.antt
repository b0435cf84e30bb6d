-- ===== src/Structs/SkipList/Tests.antt =====
-- A shard as `nkit_skip_create` makes it, what the operations do on it, and the theorems there.
use libnumakit.Prelude.{
  ℕ, zero, suc, ◌+◌, ◌<◌, ◌≡◌, refl, Bool, true, Option, none, some, [], ◌∷◌, length, arith,
  get_elem?, ◌==◌, if◌then◌else◌,
}
use libnumakit.Memory.Os.{onnode, Os, World, heap}
use libnumakit.Sync.Threads.{update}
use libnumakit.Structs.SkipList.{
  Nodes, Shard, SkipList, Rand, random_level, create_node, free_node, search_key, descend, walk,
  set_next, link, unlink, key_lt, memcmp_lt, keys_equal, fnv1a, fnv1a_loop,
}
use libnumakit.Structs.SkipList.Shards.{
  get_shard, put_shard, put_new, remove_shard, create, make_shards, destroy, free_shards,
  free_chain, put, on_shard, get, remove,
}
use libnumakit.Structs.SkipList.Lookup.{get_shard_lem}
use libnumakit.Structs.SkipList.Sorted.{IsSkip}
use libnumakit.Structs.SkipList.Chain.{Chain}
use libnumakit.Structs.SkipList.Remove.{Removed, remove_shard_lem}
use libnumakit.Structs.SkipList.Put.{Returned, put_shard_lem}

-- Each allocation is at an address of its own: 100 more than the number of live blocks.
abbrev roomy : Os
roomy = record {
  malloc = λ w n. 100 + length w;
  mmap = λ _ _ _. 4194304;
  numa_alloc = λ w n node. 100 + length w;
  mbind = λ _ _ _. true;
  madvise = λ _ _. true;
  page_size = 4096;
  numa_available = true;
}

-- Numbers by turns below and above the half.
abbrev coin : Rand
coin s = (if s == 0 then 5 else 2000000000, if s == 0 then 1 else 0)

abbrev no_nodes : Nodes
no_nodes _ = record { key = []; value = 0; level = 0; next = [] }

abbrev made : Option SkipList × Nodes × World
made = create roomy 1 2 no_nodes []

abbrev steps : Option SkipList × Nodes × World → Option (Option ℕ × Option ℕ × Bool × ℕ)
steps (none, nodes, w) = none
steps (some sl, nodes, w) = elim (put roomy coin 9 sl (98 ∷ []) 7 nodes w) [
  | none ↦ none
  | some (a, sl1, nodes1, w1) ↦ elim (put roomy coin 9 sl1 (97 ∷ []) 8 nodes1 w1) [
    | none ↦ none
    | some (b, sl2, nodes2, w2) ↦ elim (remove 9 sl2 (98 ∷ []) nodes2 w2) [
      | none ↦ none
      | some (c, sl3, nodes3, w3) ↦ elim (get 9 sl3 (97 ∷ []) nodes3) [
        | none ↦ none
        | some x ↦ elim (get 9 sl3 (98 ∷ []) nodes3) [
          | none ↦ none
          | some y ↦ elim (destroy 9 sl3 nodes3 w3) [
            | none ↦ none
            | some w4 ↦ some (x, y, c, length w4)
          ]
        ]
      ]
    ]
  ]
]

-- Two keys are put, one is removed, and `destroy` frees all that is left.
life : steps made ≡ some (some 8, none, true, 0)
unfolding random_level create_node free_node search_key descend walk link unlink key_lt memcmp_lt
    keys_equal fnv1a fnv1a_loop get_shard put_shard put_new remove_shard create make_shards destroy
    free_shards free_chain put on_shard get remove set_next
life = refl

-- An empty shard with its head at 100 and two levels.
abbrev head_only : Nodes
head_only = update no_nodes 100 (record { key = []; value = 0; level = 2; next = 0 ∷ 0 ∷ [] })

abbrev empty_shard : Shard
empty_shard = record {
  head = 100;
  max_level = 2;
  current_level = 1;
  count = 0;
  node_id = 0;
  seed = 42;
}

empty_IsSkip : IsSkip head_only empty_shard []
empty_IsSkip = record {
  top = omega arith;
  head_next = refl;
  chains = λ i lt. two i lt;
  sorted = tt;
  shaped = tt;
  distinct = (tt, tt);
  counted = refl;
}
  where
    two : (i : ℕ) → i < 2 → get_elem? {A = ℕ} (0 ∷ 0 ∷ []) i ≡ some 0
    two zero lt = refl
    two (suc zero) lt = refl
    two (suc (suc i)) lt = absurd (omega arith)

-- The same with a node at 101 of one level.
abbrev one_node : Nodes
one_node =
    update (update no_nodes 100 (record { key = []; value = 0; level = 2; next = 101 ∷ 0 ∷ [] }))
      101 (record { key = 97 ∷ []; value = 8; level = 1; next = 0 ∷ [] })

abbrev one_shard : Shard
one_shard = record empty_shard { count = 1 }

one_IsSkip : IsSkip one_node one_shard (101 ∷ [])
one_IsSkip = record {
  top = omega arith;
  head_next = refl;
  chains = λ i lt. two i lt;
  sorted = (tt, tt);
  shaped = ((λ e. absurd (omega arith), omega arith, omega arith, refl), tt);
  distinct = ((omega arith, tt), (tt, tt));
  counted = refl;
}
  where
    two : (i : ℕ) → i < 2 → Chain one_node i 100 (101 ∷ [])
    two zero lt = (refl, refl)
    two (suc zero) lt = refl
    two (suc (suc i)) lt = absurd (omega arith)

get_shard_lem_example : get_shard 2 (97 ∷ []) one_shard one_node ≡ some (some 8)
unfolding keys_equal
get_shard_lem_example = get_shard_lem one_IsSkip 2 (97 ∷ []) (omega arith)

remove_shard_lem_example :
    Removed 2
      (97 ∷ [])
      (onnode 101 40 ∷ [])
      one_IsSkip
      (omega arith)
      (remove_shard 2 (97 ∷ []) one_shard one_node (onnode 101 40 ∷ []))
remove_shard_lem_example =
    remove_shard_lem 2 (97 ∷ []) (onnode 101 40 ∷ []) one_IsSkip (omega arith)

put_shard_lem_example :
    Returned roomy coin 1
      (97 ∷ [])
      8
      (heap 1 1 ∷ [])
      empty_IsSkip
      (omega arith)
      (λ n. (omega arith, tt))
      (put_shard roomy coin 1 (97 ∷ []) 8 empty_shard head_only (heap 1 1 ∷ []))
put_shard_lem_example =
    put_shard_lem roomy coin 1 (97 ∷ []) 8 (heap 1 1 ∷ []) empty_IsSkip (omega arith)
      (λ n. (omega arith, tt))

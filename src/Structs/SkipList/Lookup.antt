-- ===== src/Structs/SkipList/Lookup.antt =====
-- A shard is a sorted list of nodes that each level threads; `nkit_skip_get` looks a key up in it.
use libnumakit.Prelude.{
  ℕ, ◌<◌, ◌≡◌, ◌≢◌, refl, ap, sym, ◌∙◌, Bool, true, false, none, some, List, [], ◌∷◌, ◌++◌, length,
  length-append, arith, if◌then◌else◌,
}
use mathlib.Core.Path.{subst}
use libnumakit.Structs.SkipList.{Nodes, Shard, next_of, key_lt, keys_equal, search_key}
use libnumakit.Structs.SkipList.Order.{
  key_lt_trans, key_lt_total, key_lt_irrefl, keys_equal_eq, keys_equal_self,
}
use libnumakit.Structs.SkipList.Chain.{Chain, last_high, All, NotSmaller, Chain-high, Chain-append}
use libnumakit.Structs.SkipList.Search.{lasts, search_key_lem}
use libnumakit.Structs.SkipList.Shards.{found, get_shard}
use libnumakit.Structs.SkipList.Sorted.{
  Before, Sorted, Shaped, IsSkip, lookup, Split, split, lookup-Smaller, All-append_split,
  Sorted-append_right,
}

-- Behind a larger node all keys are larger.
lookup-larger :
    (nodes : Nodes) (key : List ℕ) (b : ℕ) (q : List ℕ)
    → key_lt key (nodes b).key ≡ true
    → All (Before nodes b) q
    → lookup nodes key q ≡ none
lookup-larger nodes key b [] lt h = refl
lookup-larger nodes key b (c ∷ q) lt h =
    ap (λ t. if t then some (nodes c).value else lookup nodes key q)
      (differs (keys_equal (nodes c).key key) refl)
    ∙ lookup-larger nodes key b q lt h.1
  where
    differs : (t : Bool) → keys_equal (nodes c).key key ≡ t → keys_equal (nodes c).key key ≡ false
    differs false e = e
    differs true e = cc (
        sym (key_lt_trans key (nodes b).key (nodes c).key lt h.0)
        ∙ ap (λ x. key_lt key x) (keys_equal_eq (nodes c).key key e)
        ∙ key_lt_irrefl key)

abbrev pub first : List ℕ → ℕ
first [] = 0
first (b ∷ q) = b

-- The node that the search returns decides the lookup.
pub lookup-first :
    (nodes : Nodes) (key : List ℕ) (q : List ℕ)
    → Sorted nodes q
    → All (NotSmaller nodes key) q
    → lookup nodes key q
      ≡ (if found nodes (first q) key then some (nodes (first q)).value else none)
lookup-first nodes key [] so h = refl
lookup-first nodes key (b ∷ q) so h = decide (keys_equal (nodes b).key key) refl
  where
    shown : (n : ℕ) → n ≢ 0 → found nodes n key ≡ keys_equal (nodes n).key key
    shown n ne = ground arith

    decide :
        (t : Bool)
        → keys_equal (nodes b).key key ≡ t
        → lookup nodes key (b ∷ q) ≡ (if found nodes b key then some (nodes b).value else none)
    decide true e =
        ap (λ t. if t then some (nodes b).value else lookup nodes key q) e
        ∙ sym (ap (λ t. if t then some (nodes b).value else none) (shown b h.0.0 ∙ e))
    decide false e =
        let larger : key_lt key (nodes b).key ≡ true = lt (key_lt key (nodes b).key) refl in
        ap (λ t. if t then some (nodes b).value else lookup nodes key q) e
        ∙ lookup-larger nodes key b q larger so.0
        ∙ sym (ap (λ t. if t then some (nodes b).value else none) (shown b h.0.0 ∙ e))
      where
        lt : (t : Bool) → key_lt key (nodes b).key ≡ t → key_lt key (nodes b).key ≡ true
        lt true et = et
        lt false et = cc (
            sym e
            ∙ ap (λ x. keys_equal x key) (key_lt_total (nodes b).key key h.0.1 et)
            ∙ keys_equal_self key)

module _ {nodes : Nodes} {s : Shard} {l : List ℕ} (v : IsSkip nodes s l) (fuel : ℕ)
    (key : List ℕ) where
  next_first :
      (p q : List ℕ) → l ≡ p ++ q → next_of nodes (last_high nodes 0 s.head p) 0 ≡ some (first q)
  next_first p q e =
      lead (last_high nodes 0 s.head p) q
        (Chain-append nodes 0 s.head p q (subst (Chain nodes 0 s.head) e (v.chains 0 v.top)))
        (All-append_split (Shaped nodes s.max_level) p q
          (subst (All (Shaped nodes s.max_level)) e v.shaped)).1
    where
      lead :
          (a : ℕ) (q : List ℕ)
          → Chain nodes 0 a q
          → All (Shaped nodes s.max_level) q
          → next_of nodes a 0 ≡ some (first q)
      lead a [] c h = c
      lead a (b ∷ q) c h = (Chain-high nodes 0 a b q (ground (arith, h.0.1)) c).0

  -- The search returns, with the first node whose key is not smaller.
  pub search_result :
      length l < fuel
      → (p : List ℕ) × (q : List ℕ) × Split nodes key l p q
        × (search_key fuel nodes s key ≡ some (first q, lasts nodes s.head p s.max_level []))
  search_result enough =
      let (p, q, w) = split nodes key s.max_level l v.sorted v.shaped in
      (
        p,
        q,
        w,
        search_key_lem nodes key s.head p q w.others fuel s refl v.top w.smaller
            (omega (arith, enough, ap length w.whole, length-append p q))
            (λ i lt. subst (Chain nodes i s.head) w.whole (v.chains i lt)) (next_first p q w.whole),
      )

  pub lookup-Split :
      (p q : List ℕ)
      → Split nodes key l p q
      → lookup nodes key l
        ≡ (if found nodes (first q) key then some (nodes (first q)).value else none)
  lookup-Split p q w =
      ap (lookup nodes key) w.whole
      ∙ lookup-Smaller nodes key p q w.smaller
      ∙ lookup-first nodes key q
          (Sorted-append_right nodes p q (subst (Sorted nodes) w.whole v.sorted)) w.others

  -- `get` on a shard whose levels thread the sorted list `l`, with more fuel than `l` has nodes,
  -- always returns and never reads outside a node: it returns the value of the node with the key,
  -- or NULL when no node has it.
  pub get_shard_lem : length l < fuel → get_shard fuel key s nodes ≡ some (lookup nodes key l)
  unfolding get_shard
  get_shard_lem enough =
      let (p, q, w, ran) = search_result enough in
      rw (ran, get_shard) (ap some (sym (lookup-Split p q w)))

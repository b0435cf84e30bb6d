-- ===== src/Structs/SkipList/Remove.antt =====
-- `nkit_skip_remove` on a shard takes the key off its map.
use libnumakit.Prelude.{
  ℕ, sub64, ◌+◌, ◌<◌, ◌≡◌, ◌⊎◌, inl, inr, refl, ap, sym, ◌∙◌, Bool, true, false, Option, none, some,
  List, [], ◌∷◌, ◌++◌, length, length-append, arith, Bool-cases, if◌then◌else◌, dec_lt,
}
use mathlib.Core.Path.{subst}
use mathlib.Core.List.{append-nil}
use libnumakit.Memory.Os.{World, onnode, release}
use libnumakit.Structs.SkipList.{
  Nodes, Shard, node_bytes, keys_equal, free_node, unlink, search_key,
}
use libnumakit.Structs.SkipList.Order.{keys_equal_eq}
use libnumakit.Structs.SkipList.Chain.{Chain, All}
use libnumakit.Structs.SkipList.Search.{lasts}
use libnumakit.Structs.SkipList.Shards.{found, remove_shard}
use libnumakit.Structs.SkipList.Lookup.{first, search_result, lookup-Split}
use libnumakit.Structs.SkipList.Sorted.{
  Sorted, Shaped, Distinct, IsSkip, lookup, Split, All-append_split,
}
use libnumakit.Structs.SkipList.Relink.{Chain-Kept}
use libnumakit.Structs.SkipList.Link.{from, lasts-from}
use libnumakit.Structs.SkipList.Insert.{lookup-Alike, Sorted-Alike, Shaped-Alike}
use libnumakit.Structs.SkipList.Fresh.{Kept-Alike}
use libnumakit.Structs.SkipList.Put.{found-real, found-key}
use libnumakit.Structs.SkipList.Unlink.{Chain-remove_low, Unthreaded, unlink_lem}
use libnumakit.Structs.SkipList.Without.{All-remove, Sorted-remove, Distinct-remove, lookup-remove}

abbrev pub present : Option ℕ → Bool
present none = false
present (some _) = true

-- What a remove comes to: the node with the key is off the list and its memory given back, or there
-- is none and nothing changes.
pub record RemoveDone (key : List ℕ) (s : Shard) (nodes : Nodes) (w : World) (l : List ℕ)
    (ok : Bool) (s' : Shard) (nodes' : Nodes) (w' : World) (l' : List ℕ) : Type 0 where
  pub valid : IsSkip nodes' s' l'
  pub same_head : s'.head ≡ s.head
  pub same_levels : s'.max_level ≡ s.max_level
  pub result : ok ≡ present (lookup nodes key l)
  pub map :
      (k : List ℕ) → lookup nodes' k l' ≡ (if keys_equal key k then none else lookup nodes k l)
  pub memory :
      ((ok ≡ false) × (l' ≡ l) × (w' ≡ w))
      ⊎ ((p : List ℕ) × (c : ℕ) × (q : List ℕ) × (ok ≡ true)
          × (l ≡ p ++ c ∷ q)
          × (l' ≡ p ++ q)
          × (w' ≡ release (onnode c (node_bytes (nodes c).level)) w))

module _ (fuel : ℕ) (key : List ℕ) {s : Shard} {nodes : Nodes} (w : World) {l : List ℕ}
    (v : IsSkip nodes s l) (enough : length l < fuel) where
  abbrev pub Removed : Option (Bool × Shard × Nodes × World) → Type 0
  Removed o =
      (ok : Bool) × (s' : Shard) × (nodes' : Nodes) × (w' : World) × (l' : List ℕ) × (o
        ≡ some (ok, s', nodes', w'))
      × RemoveDone key s nodes w l ok s' nodes' w' l'

  absent_lem :
      (p q : List ℕ)
      → Split nodes key l p q
      → found nodes (first q) key ≡ false
      → RemoveDone key s nodes w l false s nodes w l
  absent_lem p q split e =
      let nothing : lookup nodes key l ≡ none =
        lookup-Split v fuel key p q split
        ∙ ap (λ t. if t then some (nodes (first q)).value else none) e in
      record {
        valid = record {
          top = v.top;
          head_next = v.head_next;
          chains = v.chains;
          sorted = v.sorted;
          shaped = v.shaped;
          distinct = v.distinct;
          counted = v.counted;
        };
        same_head = refl;
        same_levels = refl;
        result = sym (ap present nothing);
        map = λ k. elim (Bool-cases (keys_equal key k)) [
          | inl same ↦
              ap (λ x. lookup nodes x l) (sym (keys_equal_eq key k same))
              ∙ nothing
              ∙ sym (ap (λ t. if t then none else lookup nodes k l) same)
          | inr other ↦ sym (ap (λ t. if t then none else lookup nodes k l) other)
        ];
        memory = inl (refl, refl, refl);
      }

  -- The node that the search stops at has the key.
  module _ (p : List ℕ) (c : ℕ) (q : List ℕ) (split : Split nodes key l p (c ∷ q))
      (here : found nodes c key ≡ true) where
    d : Distinct (s.head ∷ (p ++ c ∷ q))
    d = subst (λ x. Distinct (s.head ∷ x)) split.whole v.distinct

    shape : All (Shaped nodes s.max_level) (p ++ c ∷ q)
    shape = subst (All (Shaped nodes s.max_level)) split.whole v.shaped

    own : Shaped nodes s.max_level c
    own = (All-append_split (Shaped nodes s.max_level) p (c ∷ q) shape).1.0

    unlinked :
        (nodes' : Nodes) × (unlink (nodes c).level 0 c (lasts nodes s.head p s.max_level []) nodes
          ≡ some nodes')
        × Unthreaded nodes nodes' s.head (p ++ q) 0 (0 + (nodes c).level)
    unlinked =
        unlink_lem s.head c p q d (nodes c).level 0 nodes (lasts nodes s.head p s.max_level [])
          s.max_level
          (lasts-from nodes s.head p s.max_level []
            ∙ append-nil (from nodes s.head p 0 s.max_level))
          own.2 (omega arith)
          (λ j lo hi.
            subst (Chain nodes j s.head) split.whole (v.chains j (omega (arith, hi, own.2))))

    module _ {nodes' : Nodes}
        (t : Unthreaded nodes nodes' s.head (p ++ q) 0 (0 + (nodes c).level)) where
      chain : (i : ℕ) → i < s.max_level → Chain nodes' i s.head (p ++ q)
      chain i lt = elim (dec_lt i (nodes c).level) [
        | yes inside ↦ t.inner i (omega arith) (omega arith)
        | no outside ↦ Chain-Kept i s.head (p ++ q) t.kept (t.outer i (inr (omega arith))) (
            Chain-remove_low nodes i s.head c p q (ground arith)
              (subst (Chain nodes i s.head) split.whole (v.chains i lt)))
      ]

      removed :
          RemoveDone key s nodes w l true
            (record s { count = sub64 s.count 1 })
            nodes'
            (release (onnode c (node_bytes (nodes c).level)) w)
            (p ++ q)
      removed =
          let sorted = subst (Sorted nodes) split.whole v.sorted in
          let alike = Kept-Alike (p ++ q) t.kept in
          record {
            valid = record {
              top = v.top;
              head_next = t.kept.size s.head ∙ v.head_next;
              chains = chain;
              sorted = Sorted-Alike nodes nodes' (p ++ q) alike (Sorted-remove nodes c q p sorted);
              shaped =
                  Shaped-Alike nodes nodes' s.max_level (p ++ q) alike
                    (All-remove nodes c q (Shaped nodes s.max_level) p shape);
              distinct = Distinct-remove nodes c q (s.head ∷ p) d;
              counted = omega (
                arith,
                v.counted,
                ap length split.whole,
                length-append p q,
                length-append p (c ∷ q),
              );
            };
            same_head = refl;
            same_levels = refl;
            result = sym (
                ap present (
                  lookup-Split v fuel key p (c ∷ q) split
                  ∙ ap (λ t. if t then some (nodes c).value else none) here));
            map = λ k.
                lookup-Alike nodes nodes' k (p ++ q) alike
                ∙ lookup-remove nodes c q key p (found-key nodes c key here) split.smaller sorted k
                ∙ ap (λ x. if keys_equal key k then none else lookup nodes k x) (sym split.whole);
            memory = inr (p, c, q, refl, split.whole, refl, refl);
          }

      given_back : free_node c nodes' w ≡ release (onnode c (node_bytes (nodes c).level)) w
      unfolding free_node
      given_back = ground (arith, own.0, t.kept.level c)

  -- `remove` on a shard whose levels thread the sorted list `l`, with more fuel than `l` has nodes,
  -- always returns and never reads outside a node: 0 exactly when the key has a value. The levels
  -- then thread a sorted list without the key in which every other key has what it had; the node
  -- that left the list, and no other, is freed.
  pub remove_shard_lem : Removed (remove_shard fuel key s nodes w)
  unfolding remove_shard
  remove_shard_lem =
      let (p, q, split, ran) = search_result v fuel key enough in
      elim (Bool-cases (found nodes (first q) key)) [
        | inl e ↦ there p q split ran e
        | inr e ↦
            (false, s, nodes, w, l, rw (ran, remove_shard) (rw e refl), absent_lem p q split e)
      ]
    where
      there :
          (p q : List ℕ)
          → Split nodes key l p q
          → search_key fuel nodes s key ≡ some (first q, lasts nodes s.head p s.max_level [])
          → found nodes (first q) key ≡ true
          → Removed (remove_shard fuel key s nodes w)
      there p [] split ran e = absurd (found-real nodes 0 key e refl)
      there p (c ∷ q) split ran e =
          let (nodes', gone, t) = unlinked p c q split e in
          (
            true,
            record s { count = sub64 s.count 1 },
            nodes',
            release (onnode c (node_bytes (nodes c).level)) w,
            p ++ q,
            rw (ran, remove_shard)
                (rw e (rw (gone, remove_shard) (rw (given_back p c q split e t) refl))),
            removed p c q split e t,
          )

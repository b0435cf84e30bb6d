-- ===== src/Structs/SkipList/Thread.antt =====
-- A new node in the list of a shard: linked into its levels, it leaves a list with one key more.
use libnumakit.Prelude.{
  add64, ℕ, ◌+◌, ◌≤◌, ◌<◌, ◌≡◌, ◌≢◌, inr, ap, ap₂, sym, ◌∙◌, none, some, List, [], ◌∷◌, ◌++◌,
  length, length-append, length-replicate, arith, if◌then◌else◌, dec_lt,
}
use mathlib.Core.Path.{subst}
use mathlib.Core.List.{append-nil}
use libnumakit.Sync.Threads.{update}
use libnumakit.Structs.SkipList.{Nodes, Shard, key_lt, keys_equal, link}
use libnumakit.Structs.SkipList.Chain.{Chain, All, Smaller}
use libnumakit.Structs.SkipList.Search.{lasts}
use libnumakit.Structs.SkipList.Sorted.{
  Sorted, Shaped, Differs, Distinct, IsSkip, lookup, Split, Sorted-append_right, All-append_split,
  lookup-Smaller,
}
use libnumakit.Structs.SkipList.Relink.{Chain-Kept, Chain-insert_low, All-zip}
use libnumakit.Structs.SkipList.Link.{from, lasts-from, Threaded, link_lem}
use libnumakit.Structs.SkipList.Insert.{
  Alike, lookup-Alike, Sorted-Alike, Shaped-Alike, All-Larger, Larger, Sorted-insert, All-insert,
  Distinct-insert, lookup-insert,
}
use libnumakit.Structs.SkipList.Fresh.{
  fresh, from-Alike, untouched, written, untouched-Alike, untouched-Chain, Kept-Alike,
}

-- The list with the new node in its place, linked into its levels.
module _ {nodes : Nodes} {s : Shard} {l : List ℕ} (v : IsSkip nodes s l) (key : List ℕ) (value : ℕ)
    {p q : List ℕ} (w : Split nodes key l p q) (absent : lookup nodes key l ≡ none) (new level : ℕ)
    (real : new ≢ 0) (low : 0 < level) (top : level ≤ s.max_level)
    (f : All (Differs new) (s.head ∷ l)) where
  abbrev store : Nodes
  store = update nodes new (fresh key value level)

  f' : All (Differs new) (s.head ∷ (p ++ q))
  f' = subst (λ x. All (Differs new) (s.head ∷ x)) w.whole f

  d' : Distinct (s.head ∷ (p ++ q))
  d' = subst (λ x. Distinct (s.head ∷ x)) w.whole v.distinct

  itself : store new ≡ fresh key value level
  itself = written nodes new (fresh key value level)

  pub linked :
      (nodes' : Nodes) × (link level 0 new (lasts nodes s.head p s.max_level []) store
        ≡ some nodes')
      × Threaded store nodes' s.head new p q 0 level
  linked =
      subst
        (λ m.
          (nodes' : Nodes) × (link level 0 new (lasts nodes s.head p s.max_level []) store
            ≡ some nodes')
          × Threaded store nodes' s.head new p q 0 m)
        {x = 0 + level} {y = level} (omega arith)
        (link_lem s.head new p q d' f' level 0 store (lasts nodes s.head p s.max_level [])
          s.max_level
          (lasts-from nodes s.head p s.max_level []
            ∙ append-nil (from nodes s.head p 0 s.max_level)
            ∙ sym (
                from-Alike nodes store s.head p 0 s.max_level (
                  untouched-Alike nodes new (fresh key value level) p
                    (All-append_split (Differs new) p q f'.1).0)))
          top (omega (arith, ap (λ n. n.level) itself))
          (ap (λ n. length n.next) itself
            ∙ length-replicate level 0
            ∙ sym (ap (λ n. n.level) itself))
          (λ j lo hi.
            untouched-Chain nodes new (fresh key value level) j s.head (p ++ q) f'
              (subst (Chain nodes j s.head) w.whole (v.chains j (omega (arith, hi, top))))))

  module _ {nodes' : Nodes} (t : Threaded store nodes' s.head new p q 0 level) where
    alike : All (Alike nodes nodes') (p ++ q)
    alike =
        All-zip {P = Alike nodes store} {Q = Alike store nodes'} (p ++ q)
          (λ x a b. (b.0 ∙ a.0, b.1 ∙ a.1, b.2 ∙ a.2, b.3 ∙ a.3))
          (untouched-Alike nodes new (fresh key value level) (p ++ q) f'.1)
          (Kept-Alike (p ++ q) t.kept)

    new_key : (nodes' new).key ≡ key
    new_key = t.kept.key new ∙ ap (λ n. n.key) itself

    new_level : (nodes' new).level ≡ level
    new_level = t.kept.level new ∙ ap (λ n. n.level) itself

    smaller : All (Smaller nodes' (nodes' new).key) p
    smaller =
        All-zip {P = Smaller nodes key} {Q = Alike nodes nodes'} p
          (λ x a b. (a.0, ap₂ key_lt b.0 new_key ∙ a.1)) w.smaller
          (All-append_split (Alike nodes nodes') p q alike).0

    larger : All (Larger nodes' (nodes' new).key) q
    larger =
        All-zip {P = Larger nodes key} {Q = Alike nodes nodes'} q
          (λ x a b. ap₂ key_lt new_key b.0 ∙ a)
          (All-Larger nodes key q
            (Sorted-append_right nodes p q (subst (Sorted nodes) w.whole v.sorted)) w.others
            (sym (lookup-Smaller nodes key p q w.smaller)
              ∙ ap (lookup nodes key) (sym w.whole)
              ∙ absent))
          (All-append_split (Alike nodes nodes') p q alike).1

    pub inserted-lookup :
        (k : List ℕ)
        → lookup nodes' k (p ++ new ∷ q)
          ≡ (if keys_equal key k then some value else lookup nodes k l)
    inserted-lookup k =
        lookup-insert nodes' new q k p smaller
        ∙ ap (λ x. if keys_equal x k then some (nodes' new).value else lookup nodes' k (p ++ q))
            new_key
        ∙ ap₂ (λ x y. if keys_equal key k then some x else y)
            (t.kept.value new ∙ ap (λ n. n.value) itself)
            (lookup-Alike nodes nodes' k (p ++ q) alike ∙ ap (lookup nodes k) (sym w.whole))

    pub inserted-IsSkip :
        (s' : Shard)
        → s'.head ≡ s.head
        → s'.max_level ≡ s.max_level
        → s'.count ≡ add64 s.count 1
        → IsSkip nodes' s' (p ++ new ∷ q)
    inserted-IsSkip s' eh em ec = record {
      top = omega (arith, em, v.top);
      head_next =
          ap (λ x. length (nodes' x).next) eh
          ∙ t.kept.size s.head
          ∙ ap (λ n. length n.next) (untouched nodes new (fresh key value level) s.head f.0)
          ∙ v.head_next
          ∙ sym em;
      chains = λ i lt.
          subst (λ x. Chain nodes' i x (p ++ new ∷ q)) (sym eh) (chain i (omega (arith, em, lt)));
      sorted =
          Sorted-insert nodes' new q p smaller larger
            (Sorted-Alike nodes nodes' (p ++ q) alike (subst (Sorted nodes) w.whole v.sorted));
      shaped =
          subst (λ m. All (Shaped nodes' m) (p ++ new ∷ q)) (sym em)
            (All-insert nodes' new q (Shaped nodes' s.max_level) p
              (
                real,
                omega (arith, new_level, low),
                omega (arith, new_level, top),
                t.kept.size new
                    ∙ ap (λ n. length n.next) itself
                    ∙ length-replicate level 0
                    ∙ sym new_level,
              )
              (Shaped-Alike nodes nodes' s.max_level (p ++ q) alike
                (subst (All (Shaped nodes s.max_level)) w.whole v.shaped)));
      distinct =
          subst (λ x. Distinct (x ∷ (p ++ new ∷ q))) (sym eh)
            (
              All-insert nodes' new q (Differs s.head) p (λ e. f.0 (sym e)) d'.0,
              Distinct-insert nodes' new q p f'.1 d'.1,
            );
      counted =
          omega
            (arith, ec, v.counted, ap length w.whole, length-append p q, length-append p (new ∷ q));
    }
      where
        chain : (i : ℕ) → i < s.max_level → Chain nodes' i s.head (p ++ new ∷ q)
        chain i lt = elim (dec_lt i level) [
          | yes inside ↦ t.inner i (omega arith) inside
          | no above ↦ Chain-insert_low nodes' i s.head new p q (ground (arith, new_level)) (
              Chain-Kept i s.head (p ++ q) t.kept (t.outer i (inr (omega arith))) (
                untouched-Chain nodes new (fresh key value level) i s.head (p ++ q) f'
                  (subst (Chain nodes i s.head) w.whole (v.chains i lt))))
        ]

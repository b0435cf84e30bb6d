-- ===== src/Structs/SkipList/Insert.antt =====
-- A node is put between the smaller and the larger ones: the order and the map of the list.
use libnumakit.Prelude.{
  ℕ, ◌≡◌, inl, inr, refl, ap, ap₂, sym, ◌∙◌, Bool, true, false, none, some, List, [], ◌∷◌, ◌++◌,
  length, arith, Bool-cases, if◌then◌else◌,
}
use libnumakit.Structs.SkipList.{Nodes, key_lt, keys_equal}
use libnumakit.Structs.SkipList.Order.{
  key_lt_trans, key_lt_total, key_lt_irrefl, keys_equal_eq, keys_equal_self,
}
use libnumakit.Structs.SkipList.Chain.{All, Smaller, NotSmaller}
use libnumakit.Structs.SkipList.Sorted.{Before, Sorted, Shaped, Differs, Distinct, lookup}

-- The node that the list keeps in another store: all but its pointers.
abbrev pub Alike : Nodes → Nodes → ℕ → Type 0
Alike nodes nodes' x =
    ((nodes' x).key ≡ (nodes x).key)
    × ((nodes' x).value ≡ (nodes x).value)
    × ((nodes' x).level ≡ (nodes x).level)
    × (length (nodes' x).next ≡ length (nodes x).next)

pub lookup-Alike :
    (nodes nodes' : Nodes) (key : List ℕ) (l : List ℕ)
    → All (Alike nodes nodes') l
    → lookup nodes' key l ≡ lookup nodes key l
lookup-Alike nodes nodes' key [] h = refl
lookup-Alike nodes nodes' key (b ∷ l) h =
    ap (λ x. if keys_equal x key then some (nodes' b).value else lookup nodes' key l) h.0.0
    ∙ ap₂ (λ x y. if keys_equal (nodes b).key key then some x else y) h.0.1
        (lookup-Alike nodes nodes' key l h.1)

Before-Alike :
    (nodes nodes' : Nodes) (b : ℕ) (l : List ℕ)
    → Alike nodes nodes' b
    → All (Alike nodes nodes') l
    → All (Before nodes b) l
    → All (Before nodes' b) l
Before-Alike nodes nodes' b [] hb h s = tt
Before-Alike nodes nodes' b (c ∷ l) hb h s =
    (ap₂ key_lt hb.0 h.0.0 ∙ s.0, Before-Alike nodes nodes' b l hb h.1 s.1)

pub Sorted-Alike :
    (nodes nodes' : Nodes) (l : List ℕ)
    → All (Alike nodes nodes') l
    → Sorted nodes l
    → Sorted nodes' l
Sorted-Alike nodes nodes' [] h s = tt
Sorted-Alike nodes nodes' (b ∷ l) h s =
    (Before-Alike nodes nodes' b l h.0 h.1 s.0, Sorted-Alike nodes nodes' l h.1 s.1)

pub Shaped-Alike :
    (nodes nodes' : Nodes) (top : ℕ) (l : List ℕ)
    → All (Alike nodes nodes') l
    → All (Shaped nodes top) l
    → All (Shaped nodes' top) l
Shaped-Alike nodes nodes' top [] h s = tt
Shaped-Alike nodes nodes' top (b ∷ l) h s = (
  (s.0.0, omega (arith, h.0.2, s.0.1), omega (arith, h.0.2, s.0.2), h.0.3 ∙ s.0.3 ∙ sym h.0.2),
  Shaped-Alike nodes nodes' top l h.1 s.1,
)

-- A key that the list lacks is smaller than those that are not smaller.
abbrev pub Larger : Nodes → List ℕ → ℕ → Type 0
Larger nodes key b = key_lt key (nodes b).key ≡ true

pub All-Larger :
    (nodes : Nodes) (key : List ℕ) (q : List ℕ)
    → Sorted nodes q
    → All (NotSmaller nodes key) q
    → lookup nodes key q ≡ none
    → All (Larger nodes key) q
All-Larger nodes key [] s h e = tt
All-Larger nodes key (b ∷ q) s h e =
    let larger = lt (key_lt key (nodes b).key) refl in (larger, behind q s.0 larger)
  where
    lt : (t : Bool) → key_lt key (nodes b).key ≡ t → key_lt key (nodes b).key ≡ true
    lt true et = et
    lt false et =
        let same = key_lt_total (nodes b).key key h.0.1 et in
        cc (
          sym (
            ap (λ t. if t then some (nodes b).value else lookup nodes key q)
              (ap (λ x. keys_equal x key) same ∙ keys_equal_self key))
          ∙ e)

    behind :
        (l : List ℕ)
        → All (Before nodes b) l
        → key_lt key (nodes b).key ≡ true
        → All (Larger nodes key) l
    behind [] hb el = tt
    behind (c ∷ l) hb el = (key_lt_trans key (nodes b).key (nodes c).key el hb.0, behind l hb.1 el)

module _ (nodes : Nodes) (new : ℕ) (q : List ℕ) where
  Before-insert :
      (b : ℕ) (p : List ℕ)
      → key_lt (nodes b).key (nodes new).key ≡ true
      → All (Before nodes b) (p ++ q)
      → All (Before nodes b) (p ++ new ∷ q)
  Before-insert b [] e h = (e, h)
  Before-insert b (c ∷ p) e h = (h.0, Before-insert b p e h.1)

  pub Sorted-insert :
      (p : List ℕ)
      → All (Smaller nodes (nodes new).key) p
      → All (Larger nodes (nodes new).key) q
      → Sorted nodes (p ++ q)
      → Sorted nodes (p ++ new ∷ q)
  Sorted-insert [] hp hq s = (hq, s)
  Sorted-insert (b ∷ p) hp hq s = (Before-insert b p hp.0.1 s.0, Sorted-insert p hp.1 hq s.1)

  pub All-insert : (P : ℕ → Type 0) (p : List ℕ) → P new → All P (p ++ q) → All P (p ++ new ∷ q)
  All-insert P [] hn h = (hn, h)
  All-insert P (b ∷ p) hn h = (h.0, All-insert P p hn h.1)

  pub Distinct-insert :
      (p : List ℕ) → All (Differs new) (p ++ q) → Distinct (p ++ q) → Distinct (p ++ new ∷ q)
  Distinct-insert [] f d = (f, d)
  Distinct-insert (b ∷ p) f d =
      (All-insert (Differs b) p (λ e. f.0 (sym e)) d.0, Distinct-insert p f.1 d.1)

  -- The map with the new node.
  pub lookup-insert :
      (key : List ℕ) (p : List ℕ)
      → All (Smaller nodes (nodes new).key) p
      → lookup nodes key (p ++ new ∷ q) ≡ (
          if keys_equal (nodes new).key key
          then some (nodes new).value
          else lookup nodes key (p ++ q))
  lookup-insert key [] h = refl
  lookup-insert key (b ∷ p) h = elim (Bool-cases (keys_equal (nodes b).key key)) [
    | inl e ↦
        let other : keys_equal (nodes new).key key ≡ false =
          differs (keys_equal (nodes new).key key) refl (keys_equal_eq (nodes b).key key e) in
        ap (λ t. if t then some (nodes b).value else lookup nodes key (p ++ new ∷ q)) e
        ∙ sym (
            ap₂
              (λ x y.
                if x
                then some (nodes new).value
                else if y
                then some (nodes b).value
                else lookup nodes key (p ++ q))
              other e)
    | inr e ↦
        ap (λ t. if t then some (nodes b).value else lookup nodes key (p ++ new ∷ q)) e
        ∙ lookup-insert key p h.1
        ∙ sym (
            ap
              (λ y.
                if keys_equal (nodes new).key key
                then some (nodes new).value
                else if y
                then some (nodes b).value
                else lookup nodes key (p ++ q))
              e)
  ]
    where
      differs :
          (t : Bool)
          → keys_equal (nodes new).key key ≡ t
          → (nodes b).key ≡ key
          → keys_equal (nodes new).key key ≡ false
      differs false e eb = e
      differs true e eb =
          cc (sym h.0.1 ∙ ap₂ key_lt eb (keys_equal_eq (nodes new).key key e) ∙ key_lt_irrefl key)

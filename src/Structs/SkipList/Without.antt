-- ===== src/Structs/SkipList/Without.antt =====
-- A list of nodes without one of them: its order and its map.
use libnumakit.Prelude.{
  ℕ, ◌≡◌, inl, inr, refl, ap, sym, ◌∙◌, Bool, true, false, none, some, List, [], ◌∷◌, ◌++◌,
  Bool-cases, if◌then◌else◌,
}
use mathlib.Core.Path.{subst}
use libnumakit.Structs.SkipList.{Nodes, key_lt, keys_equal}
use libnumakit.Structs.SkipList.Order.{key_lt_irrefl, keys_equal_eq}
use libnumakit.Structs.SkipList.Chain.{All, Smaller}
use libnumakit.Structs.SkipList.Sorted.{Before, Sorted, Differs, Distinct, lookup, lookup-Smaller}
use libnumakit.Structs.SkipList.Insert.{lookup-insert}

module _ (nodes : Nodes) (old : ℕ) (q : List ℕ) where
  pub All-remove : (P : ℕ → Type 0) (p : List ℕ) → All P (p ++ old ∷ q) → All P (p ++ q)
  All-remove P [] h = h.1
  All-remove P (b ∷ p) h = (h.0, All-remove P p h.1)

  pub Sorted-remove : (p : List ℕ) → Sorted nodes (p ++ old ∷ q) → Sorted nodes (p ++ q)
  Sorted-remove [] h = h.1
  Sorted-remove (b ∷ p) h = (All-remove (Before nodes b) p h.0, Sorted-remove p h.1)

  pub Distinct-remove : (p : List ℕ) → Distinct (p ++ old ∷ q) → Distinct (p ++ q)
  Distinct-remove [] h = h.1
  Distinct-remove (b ∷ p) h = (All-remove (Differs b) p h.0, Distinct-remove p h.1)

  -- Behind a node the keys differ from its own.
  pub lookup-behind :
      (l : List ℕ) → All (Before nodes old) l → lookup nodes (nodes old).key l ≡ none
  lookup-behind [] h = refl
  lookup-behind (b ∷ l) h =
      ap (λ t. if t then some (nodes b).value else lookup nodes (nodes old).key l)
        (differs (keys_equal (nodes b).key (nodes old).key) refl)
      ∙ lookup-behind l h.1
    where
      differs :
          (t : Bool)
          → keys_equal (nodes b).key (nodes old).key ≡ t
          → keys_equal (nodes b).key (nodes old).key ≡ false
      differs false e = e
      differs true e = cc (
          sym h.0
          ∙ ap (key_lt (nodes old).key) (keys_equal_eq (nodes b).key (nodes old).key e)
          ∙ key_lt_irrefl (nodes old).key)

  pub Before-behind : (p : List ℕ) → Sorted nodes (p ++ old ∷ q) → All (Before nodes old) q
  Before-behind [] h = h.0
  Before-behind (b ∷ p) h = Before-behind p h.1

  -- The map without the node.
  pub lookup-remove :
      (key : List ℕ) (p : List ℕ)
      → (nodes old).key ≡ key
      → All (Smaller nodes key) p
      → Sorted nodes (p ++ old ∷ q)
      → (k : List ℕ)
      → lookup nodes k (p ++ q) ≡ (if keys_equal key k then none else lookup nodes k (p ++ old ∷ q))
  lookup-remove key p ek h so k = elim (Bool-cases (keys_equal key k)) [
    | inl e ↦
        let same : key ≡ k = keys_equal_eq key k e in
        ap (λ x. lookup nodes x (p ++ q)) (sym same)
        ∙ lookup-Smaller nodes key p q h
        ∙ ap (λ x. lookup nodes x q) (sym ek)
        ∙ lookup-behind q (Before-behind p so)
        ∙ sym (ap (λ t. if t then none else lookup nodes k (p ++ old ∷ q)) e)
    | inr e ↦ sym (
        ap (λ t. if t then none else lookup nodes k (p ++ old ∷ q)) e
        ∙ lookup-insert nodes old q k p (subst (λ x. All (Smaller nodes x) p) (sym ek) h)
        ∙ ap (λ t. if t then some (nodes old).value else lookup nodes k (p ++ q))
            (ap (λ x. keys_equal x k) ek ∙ e))
  ]

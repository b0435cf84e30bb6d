-- ===== src/Structs/SkipList/Chain.antt =====
-- The list that level `i` of a skip list threads: the nodes behind `a` that are high enough.
use libnumakit.Prelude.{
  ℕ, zero, suc, ◌<◌, ◌≡◌, ◌≢◌, ◌⊎◌, inl, inr, refl, ap, sym, ◌∙◌, Bool, true, false, some, List, [],
  ◌∷◌, ◌++◌, ltb, if◌then◌else◌, length, arith, Bool-cases,
}
use mathlib.Core.Path.{subst}
use libnumakit.Structs.SkipList.{Nodes, next_of, key_lt, walk}

abbrev pub high : Nodes → ℕ → ℕ → Bool
high nodes i b = ltb i (nodes b).level

abbrev pub Chain : Nodes → ℕ → ℕ → List ℕ → Type 0
Chain nodes i a [] = next_of nodes a i ≡ some 0
Chain nodes i a (b ∷ q) =
    if high nodes i b then (next_of nodes a i ≡ some b) × Chain nodes i b q else Chain nodes i a q

-- The last node of a list that is high enough, or the one before the list.
abbrev pub last_high : Nodes → ℕ → ℕ → List ℕ → ℕ
last_high nodes i a [] = a
last_high nodes i a (b ∷ q) = last_high nodes i (if high nodes i b then b else a) q

abbrev pub All {ℓ} : {A : Type ℓ} → (A → Type 0) → List A → Type 0
All P [] = Unit
All P (x ∷ xs) = P x × All P xs

abbrev pub Smaller : Nodes → List ℕ → ℕ → Type 0
Smaller nodes key b = (b ≢ 0) × (key_lt (nodes b).key key ≡ true)

abbrev pub NotSmaller : Nodes → List ℕ → ℕ → Type 0
NotSmaller nodes key b = (b ≢ 0) × (key_lt (nodes b).key key ≡ false)

module _ (nodes : Nodes) (i a b : ℕ) (q : List ℕ) where
  pub Chain-high :
      high nodes i b ≡ true
      → Chain nodes i a (b ∷ q)
      → (next_of nodes a i ≡ some b) × Chain nodes i b q
  Chain-high e c =
      subst (λ t. if t then (next_of nodes a i ≡ some b) × Chain nodes i b q else Chain nodes i a q)
        e c

  pub Chain-low : high nodes i b ≡ false → Chain nodes i a (b ∷ q) → Chain nodes i a q
  Chain-low e c =
      subst (λ t. if t then (next_of nodes a i ≡ some b) × Chain nodes i b q else Chain nodes i a q)
        e c

  pub Chain-cons_high :
      high nodes i b ≡ true
      → next_of nodes a i ≡ some b
      → Chain nodes i b q
      → Chain nodes i a (b ∷ q)
  Chain-cons_high e n c =
      subst (λ t. if t then (next_of nodes a i ≡ some b) × Chain nodes i b q else Chain nodes i a q)
        (sym e) (n, c)

  pub Chain-cons_low : high nodes i b ≡ false → Chain nodes i a q → Chain nodes i a (b ∷ q)
  Chain-cons_low e c =
      subst (λ t. if t then (next_of nodes a i ≡ some b) × Chain nodes i b q else Chain nodes i a q)
        (sym e) c

  pub last_high-high : high nodes i b ≡ true → last_high nodes i a (b ∷ q) ≡ last_high nodes i b q
  last_high-high e = ap (λ t. last_high nodes i (if t then b else a) q) e

  pub last_high-low : high nodes i b ≡ false → last_high nodes i a (b ∷ q) ≡ last_high nodes i a q
  last_high-low e = ap (λ t. last_high nodes i (if t then b else a) q) e

-- The rest of a chain hangs on the last node before it.
pub Chain-append :
    (nodes : Nodes) (i a : ℕ) (p q : List ℕ)
    → Chain nodes i a (p ++ q)
    → Chain nodes i (last_high nodes i a p) q
Chain-append nodes i a [] q c = c
Chain-append nodes i a (b ∷ p) q c = elim (Bool-cases (high nodes i b)) [
  | inl e ↦
      subst (λ x. Chain nodes i x q) (sym (last_high-high nodes i a b p e))
        (Chain-append nodes i b p q (Chain-high nodes i a b (p ++ q) e c).1)
  | inr e ↦
      subst (λ x. Chain nodes i x q) (sym (last_high-low nodes i a b p e))
        (Chain-append nodes i a p q (Chain-low nodes i a b (p ++ q) e c))
]

-- A chain leads to nothing, or to a node of its list.
pub Chain-next :
    (nodes : Nodes) (i a : ℕ) (q : List ℕ) (key : List ℕ)
    → All (NotSmaller nodes key) q
    → Chain nodes i a q
    → (n : ℕ) × (next_of nodes a i ≡ some n) × ((n ≡ 0) ⊎ (key_lt (nodes n).key key ≡ false))
Chain-next nodes i a [] key h c = (0, c, inl refl)
Chain-next nodes i a (b ∷ q) key h c = elim (Bool-cases (high nodes i b)) [
  | inl e ↦ (b, (Chain-high nodes i a b q e c).0, inr h.0.1)
  | inr e ↦ Chain-next nodes i a q key h.1 (Chain-low nodes i a b q e c)
]

walk-stop :
    (fuel : ℕ) (nodes : Nodes) (key : List ℕ) (i curr n : ℕ)
    → next_of nodes curr i ≡ some n
    → (n ≡ 0) ⊎ (key_lt (nodes n).key key ≡ false)
    → walk (suc fuel) nodes key i curr ≡ some curr
unfolding walk
walk-stop fuel nodes key i curr n e (inl z) = rw (e, walk) (ground arith)
walk-stop fuel nodes key i curr n e (inr f) = rw (e, walk) (ground arith)

walk-on :
    (fuel : ℕ) (nodes : Nodes) (key : List ℕ) (i curr n : ℕ)
    → next_of nodes curr i ≡ some n
    → Smaller nodes key n
    → walk (suc fuel) nodes key i curr ≡ walk fuel nodes key i n
unfolding walk
walk-on fuel nodes key i curr n e h = rw (e, walk) (ground arith)

-- The inner loop stops at the last smaller node of the level.
pub walk_lem :
    (fuel : ℕ) (nodes : Nodes) (key : List ℕ) (i a : ℕ) (p q : List ℕ)
    → All (Smaller nodes key) p
    → All (NotSmaller nodes key) q
    → Chain nodes i a (p ++ q)
    → length p < fuel
    → walk fuel nodes key i a ≡ some (last_high nodes i a p)
walk_lem zero nodes key i a p q hp hq c enough = absurd (omega arith)
walk_lem (suc fuel) nodes key i a [] q hp hq c enough =
    let (n, e, ends) = Chain-next nodes i a q key hq c in walk-stop fuel nodes key i a n e ends
walk_lem (suc fuel) nodes key i a (b ∷ p) q hp hq c enough = elim (Bool-cases (high nodes i b)) [
  | inl e ↦
      let (n, c') = Chain-high nodes i a b (p ++ q) e c in
      walk-on fuel nodes key i a b n hp.0
      ∙ walk_lem fuel nodes key i b p q hp.1 hq c' (omega arith)
      ∙ ap some (sym (last_high-high nodes i a b p e))
  | inr e ↦
      walk_lem (suc fuel) nodes key i a p q hp.1 hq (Chain-low nodes i a b (p ++ q) e c)
        (omega arith)
      ∙ ap some (sym (last_high-low nodes i a b p e))
]

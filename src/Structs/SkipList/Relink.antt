-- ===== src/Structs/SkipList/Relink.antt =====
-- How a chain changes when a node is put into it, and when pointers of other levels change.
use libnumakit.Prelude.{
  ℕ, zero, suc, ◌<◌, ◌≡◌, ◌≢◌, inl, inr, refl, ap, sym, ◌∙◌, true, false, some, List, [], ◌∷◌, ◌++◌,
  length, length-set, arith, Bool-cases, if◌then◌else◌, get_elem?, set, get_elem?-set_self,
  get_elem?-set_ne, ℕ_discrete, ltb,
}
use mathlib.Core.Path.{subst}
use libnumakit.Structs.SkipList.{Nodes, next_of, set_next}
use libnumakit.Structs.SkipList.Chain.{
  high, Chain, last_high, All, Chain-high, Chain-low, Chain-cons_high, Chain-cons_low,
  last_high-high, last_high-low,
}
use libnumakit.Structs.SkipList.Sorted.{Differs, Distinct}

-- The same nodes, but for their pointers.
pub record Kept (nodes nodes' : Nodes) : Type 0 where
  pub key : (x : ℕ) → (nodes' x).key ≡ (nodes x).key
  pub value : (x : ℕ) → (nodes' x).value ≡ (nodes x).value
  pub level : (x : ℕ) → (nodes' x).level ≡ (nodes x).level
  pub size : (x : ℕ) → length (nodes' x).next ≡ length (nodes x).next

pub Kept-trans : {n n' n'' : Nodes} → Kept n n' → Kept n' n'' → Kept n n''
Kept-trans v w = record {
  key = λ x. w.key x ∙ v.key x;
  value = λ x. w.value x ∙ v.value x;
  level = λ x. w.level x ∙ v.level x;
  size = λ x. w.size x ∙ v.size x;
}

pub set_next-Kept : (nodes : Nodes) (p i x : ℕ) → Kept nodes (set_next nodes p i x)
unfolding set_next
set_next-Kept nodes p i x = record {
  key = λ y. ground arith;
  value = λ y. ground arith;
  level = λ y. ground arith;
  size = λ y. same y;
}
  where
    same : (y : ℕ) → length (set_next nodes p i x y).next ≡ length (nodes y).next
    same y = ground (arith, length-set (nodes p).next i x)

pub get_elem?-lt {ℓ} :
    {A : Type ℓ} (xs : List A) (i : ℕ) {a : A} → get_elem? xs i ≡ some a → i < length xs
get_elem?-lt [] i e = cc
get_elem?-lt (x ∷ xs) zero e = omega arith
get_elem?-lt (x ∷ xs) (suc i) e = omega (arith, get_elem?-lt xs i e)

pub set_next_self :
    (nodes : Nodes) (p i x : ℕ)
    → i < length (nodes p).next
    → next_of (set_next nodes p i x) p i ≡ some x
unfolding set_next
set_next_self nodes p i x lt = ground (arith, get_elem?-set_self (nodes p).next i x lt)

pub set_next_other :
    (nodes : Nodes) (p i x y : ℕ) → p ≢ y → next_of (set_next nodes p i x) y i ≡ next_of nodes y i
unfolding set_next
set_next_other nodes p i x y ne = ground arith

pub set_next_level :
    (nodes : Nodes) (p i x y j : ℕ) → i ≢ j → next_of (set_next nodes p i x) y j ≡ next_of nodes y j
unfolding set_next
set_next_level nodes p i x y j ne = elim (ℕ_discrete p y) [
  | yes e ↦
      ap (λ m. get_elem? m.next j) {x = set_next nodes p i x y}
        {y = record (nodes p) { next = set (nodes p).next i x }} (ground arith)
      ∙ get_elem?-set_ne (nodes p).next x ne
      ∙ ap (λ z. get_elem? (nodes z).next j) e
  | no off ↦ ap (λ m. get_elem? m.next j) {x = set_next nodes p i x y} {y = nodes y} (ground arith)
]

pub All-zip :
    {P Q R : ℕ → Type 0} (q : List ℕ) → ((x : ℕ) → P x → Q x → R x) → All P q → All Q q → All R q
All-zip [] f h h' = tt
All-zip (b ∷ q) f h h' = (f b h.0 h'.0, All-zip q f h.1 h'.1)

pub high-Kept :
    (nodes nodes' : Nodes) (i b : ℕ)
    → (nodes' b).level ≡ (nodes b).level
    → high nodes' i b ≡ high nodes i b
high-Kept nodes nodes' i b e = ap (ltb i) e

pub last_high-Kept :
    {nodes nodes' : Nodes} (i a : ℕ) (p : List ℕ)
    → Kept nodes nodes'
    → last_high nodes' i a p ≡ last_high nodes i a p
last_high-Kept i a [] v = refl
last_high-Kept {nodes} {nodes'} i a (b ∷ p) v =
    ap (λ t. last_high nodes' i (if t then b else a) p) (high-Kept nodes nodes' i b (v.level b))
    ∙ last_high-Kept i (if high nodes i b then b else a) p v

abbrev pub SameAt : Nodes → Nodes → ℕ → ℕ → Type 0
SameAt nodes nodes' i x =
    ((nodes' x).level ≡ (nodes x).level) × (next_of nodes' x i ≡ next_of nodes x i)

-- A chain behind another node with the same pointer.
pub Chain-move :
    (nodes nodes' : Nodes) (i a a' : ℕ) (q : List ℕ)
    → next_of nodes' a' i ≡ next_of nodes a i
    → All (SameAt nodes nodes' i) q
    → Chain nodes i a q
    → Chain nodes' i a' q
Chain-move nodes nodes' i a a' [] e h c = e ∙ c
Chain-move nodes nodes' i a a' (b ∷ q) e h c = elim (Bool-cases (high nodes i b)) [
  | inl eb ↦
      let (n, c') = Chain-high nodes i a b q eb c in
      Chain-cons_high nodes' i a' b q (high-Kept nodes nodes' i b h.0.0 ∙ eb) (e ∙ n)
        (Chain-move nodes nodes' i b b q h.0.1 h.1 c')
  | inr eb ↦
      Chain-cons_low nodes' i a' b q (high-Kept nodes nodes' i b h.0.0 ∙ eb)
        (Chain-move nodes nodes' i a a' q e h.1 (Chain-low nodes i a b q eb c))
]

pub All-pointwise : {P : ℕ → Type 0} (q : List ℕ) → ((x : ℕ) → P x) → All P q
All-pointwise [] f = tt
All-pointwise (b ∷ q) f = (f b, All-pointwise q f)

pub Chain-Kept :
    {nodes nodes' : Nodes} (i a : ℕ) (q : List ℕ)
    → Kept nodes nodes'
    → ((x : ℕ) → next_of nodes' x i ≡ next_of nodes x i)
    → Chain nodes i a q
    → Chain nodes' i a q
Chain-Kept {nodes} {nodes'} i a q v e c =
    Chain-move nodes nodes' i a a q (e a) (All-pointwise q (λ x. (v.level x, e x))) c

-- `nodes'` leads from `u` to `new`, and from there to where `u` led.
pub record Linked (nodes nodes' : Nodes) (i u new : ℕ) : Type 0 where
  pub kept : Kept nodes nodes'
  pub off : (x : ℕ) → u ≢ x → new ≢ x → next_of nodes' x i ≡ next_of nodes x i
  pub at_u : next_of nodes' u i ≡ some new
  pub at_new : next_of nodes' new i ≡ next_of nodes u i

pub last_high-All :
    (P : ℕ → Type 0) (nodes : Nodes) (i b : ℕ) (p : List ℕ)
    → All P (b ∷ p)
    → P (last_high nodes i b p)
last_high-All P nodes i b [] h = h.0
last_high-All P nodes i b (c ∷ p) h = elim (Bool-cases (high nodes i c)) [
  | inl e ↦ subst P (sym (last_high-high nodes i b c p e)) (last_high-All P nodes i c p h.1)
  | inr e ↦ subst P (sym (last_high-low nodes i b c p e)) (last_high-All P nodes i b p (h.0, h.1.1))
]

pub All-append_left : (P : ℕ → Type 0) (p q : List ℕ) → All P (p ++ q) → All P p
All-append_left P [] q h = tt
All-append_left P (b ∷ p) q h = (h.0, All-append_left P p q h.1)

pub Chain-insert :
    {nodes nodes' : Nodes} (i a new : ℕ) (p q : List ℕ)
    → Distinct (a ∷ (p ++ q))
    → All (Differs new) (a ∷ (p ++ q))
    → high nodes i new ≡ true
    → Linked nodes nodes' i (last_high nodes i a p) new
    → Chain nodes i a (p ++ q)
    → Chain nodes' i a (p ++ new ∷ q)
Chain-insert {nodes} {nodes'} i a new [] q d f e w c =
    Chain-cons_high nodes' i a new q (high-Kept nodes nodes' i new (w.kept.level new) ∙ e) w.at_u (
      Chain-move nodes nodes' i a new q w.at_new
        (All-zip q (λ x ne ne'. (w.kept.level x, w.off x ne ne')) d.0 f.1) c)
Chain-insert {nodes} {nodes'} i a new (b ∷ p) q d f e w c = elim (Bool-cases (high nodes i b)) [
  | inl eb ↦
      let (n, c') = Chain-high nodes i a b (p ++ q) eb c in
      let same = last_high-high nodes i a b p eb in
      let away : last_high nodes i a (b ∷ p) ≢ a = λ z.
        last_high-All (Differs a) nodes i b p (d.0.0, All-append_left (Differs a) p q d.0.1)
          (sym z ∙ same) in
      Chain-cons_high nodes' i a b (p ++ new ∷ q) (high-Kept nodes nodes' i b (w.kept.level b) ∙ eb)
        (w.off a away f.0 ∙ n)
        (Chain-insert i b new p q d.1 f.1 e (subst (λ u. Linked nodes nodes' i u new) same w) c')
  | inr eb ↦
      Chain-cons_low nodes' i a b (p ++ new ∷ q) (high-Kept nodes nodes' i b (w.kept.level b) ∙ eb)
        (Chain-insert i a new p q (d.0.1, d.1.1) (f.0, f.1.1) e
          (subst (λ u. Linked nodes nodes' i u new) (last_high-low nodes i a b p eb) w)
          (Chain-low nodes i a b (p ++ q) eb c))
]

-- A node that is too low for the level changes nothing there.
pub Chain-insert_low :
    (nodes : Nodes) (i a new : ℕ) (p q : List ℕ)
    → high nodes i new ≡ false
    → Chain nodes i a (p ++ q)
    → Chain nodes i a (p ++ new ∷ q)
Chain-insert_low nodes i a new [] q e c = Chain-cons_low nodes i a new q e c
Chain-insert_low nodes i a new (b ∷ p) q e c = elim (Bool-cases (high nodes i b)) [
  | inl eb ↦
      let (n, c') = Chain-high nodes i a b (p ++ q) eb c in
      Chain-cons_high nodes i a b (p ++ new ∷ q) eb n (Chain-insert_low nodes i b new p q e c')
  | inr eb ↦
      Chain-cons_low nodes i a b (p ++ new ∷ q) eb
        (Chain-insert_low nodes i a new p q e (Chain-low nodes i a b (p ++ q) eb c))
]

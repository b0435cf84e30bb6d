-- ===== src/Structs/SkipList/Link.antt =====
-- The loop that links a new node into its levels.
use libnumakit.Prelude.{
  ℕ, zero, suc, ◌+◌, ◌≤◌, ◌<◌, ◌≡◌, ◌≢◌, ◌⊎◌, inl, inr, refl, ap, ap₂, sym, ◌∙◌, some, List, [],
  ◌∷◌, ◌++◌, length, arith, Bool-cases, ℕ_discrete,
}
use mathlib.Core.Path.{subst}
use mathlib.Core.List.{append_assoc}
use libnumakit.Structs.SkipList.{Nodes, next_of, set_next, link}
use libnumakit.Structs.SkipList.Chain.{
  high, Chain, last_high, All, Chain-append, Chain-high, Chain-low,
}
use libnumakit.Structs.SkipList.Search.{lasts}
use libnumakit.Structs.SkipList.Sorted.{Differs, Distinct}
use libnumakit.Structs.SkipList.Relink.{
  Kept, Kept-trans, set_next-Kept, get_elem?-lt, set_next_self, set_next_other, set_next_level,
  last_high-Kept, last_high-All, Chain-Kept, Linked, Chain-insert, All-append_left,
}

-- The entries of `update` for the `n` levels from `i` on.
abbrev pub from : Nodes → ℕ → List ℕ → ℕ → ℕ → List ℕ
from nodes a p i zero = []
from nodes a p i (suc n) = last_high nodes i a p ∷ from nodes a p (i + 1) n

from-snoc :
    (nodes : Nodes) (a : ℕ) (p : List ℕ) (i n : ℕ)
    → from nodes a p i (suc n) ≡ from nodes a p i n ++ last_high nodes (i + n) a p ∷ []
from-snoc nodes a p i zero = ap (λ x. last_high nodes x a p ∷ []) {x = i} {y = i + 0} (omega arith)
from-snoc nodes a p i (suc n) =
    ap (λ x. last_high nodes i a p ∷ x)
      (from-snoc nodes a p (i + 1) n
        ∙ ap (λ x. from nodes a p (i + 1) n ++ last_high nodes x a p ∷ []) {x = i + 1 + n}
            {y = i + suc n} (omega arith))

pub lasts-from :
    (nodes : Nodes) (a : ℕ) (p : List ℕ) (n : ℕ) (acc : List ℕ)
    → lasts nodes a p n acc ≡ from nodes a p 0 n ++ acc
lasts-from nodes a p zero acc = refl
lasts-from nodes a p (suc n) acc =
    lasts-from nodes a p n (last_high nodes n a p ∷ acc)
    ∙ sym (append_assoc (from nodes a p 0 n) (last_high nodes n a p ∷ []) acc)
    ∙ ap (λ x. x ++ acc)
        (ap (λ x. from nodes a p 0 n ++ last_high nodes x a p ∷ []) {x = n} {y = 0 + n}
            (omega arith)
          ∙ sym (from-snoc nodes a p 0 n))

pub from-Kept :
    {nodes nodes' : Nodes} (a : ℕ) (p : List ℕ) (i n : ℕ)
    → Kept nodes nodes'
    → from nodes' a p i n ≡ from nodes a p i n
from-Kept a p i zero v = refl
from-Kept a p i (suc n) v = ap₂ ◌∷◌ (last_high-Kept i a p v) (from-Kept a p (i + 1) n v)

-- A chain leads somewhere.
pub leads :
    (nodes : Nodes) (i a : ℕ) (q : List ℕ)
    → Chain nodes i a q
    → (x : ℕ) × (next_of nodes a i ≡ some x)
leads nodes i a [] c = (0, c)
leads nodes i a (b ∷ q) c = elim (Bool-cases (high nodes i b)) [
  | inl e ↦ (b, (Chain-high nodes i a b q e c).0)
  | inr e ↦ leads nodes i a q (Chain-low nodes i a b q e c)
]

-- The two writes of one round.
round-Linked :
    (nodes : Nodes) (i u new x : ℕ)
    → u ≢ new
    → next_of nodes u i ≡ some x
    → i < length (nodes new).next
    → Linked nodes (set_next (set_next nodes new i x) u i new) i u new
round-Linked nodes i u new x ne e lt =
    let nodes1 = set_next nodes new i x in
    let e1 : next_of nodes1 u i ≡ some x = set_next_other nodes new i x u (λ z. ne (sym z)) ∙ e in
    record {
      kept = Kept-trans (set_next-Kept nodes new i x) (set_next-Kept nodes1 u i new);
      off = λ y neu nen. set_next_other nodes1 u i new y neu ∙ set_next_other nodes new i x y nen;
      at_u = set_next_self nodes1 u i new (get_elem?-lt (nodes1 u).next i e1);
      at_new = set_next_other nodes1 u i new new ne ∙ set_next_self nodes new i x lt ∙ sym e;
    }

link-step :
    (n i new u x : ℕ) (us rest : List ℕ) (nodes : Nodes)
    → us ≡ u ∷ rest
    → next_of nodes u i ≡ some x
    → link (suc n) i new us nodes
      ≡ link n (i + 1) new rest (set_next (set_next nodes new i x) u i new)
unfolding link
link-step n i new u x us rest nodes eu e = rw (eu, link) (rw (e, link) refl)

-- What the loop leaves: the new node in the levels from `i` on, below `m`.
pub record Threaded (nodes nodes' : Nodes) (a new : ℕ) (p q : List ℕ) (i m : ℕ) : Type 0 where
  pub kept : Kept nodes nodes'
  pub inner : (j : ℕ) → i ≤ j → j < m → Chain nodes' j a (p ++ new ∷ q)
  pub outer : (j : ℕ) → (j < i) ⊎ (m ≤ j) → (x : ℕ) → next_of nodes' x j ≡ next_of nodes x j

module _ (a new : ℕ) (p q : List ℕ) (d : Distinct (a ∷ (p ++ q)))
    (f : All (Differs new) (a ∷ (p ++ q))) where
  away : (nodes : Nodes) (i : ℕ) → last_high nodes i a p ≢ new
  away nodes i e =
      last_high-All (Differs new) nodes i a p (f.0, All-append_left (Differs new) p q f.1) (sym e)

  pub link_lem :
      (n i : ℕ) (nodes : Nodes) (us : List ℕ) (k : ℕ)
      → us ≡ from nodes a p i k
      → n ≤ k
      → (nodes new).level ≡ i + n
      → length (nodes new).next ≡ (nodes new).level
      → ((j : ℕ) → i ≤ j → j < i + n → Chain nodes j a (p ++ q))
      → (nodes' : Nodes) × (link n i new us nodes ≡ some nodes')
        × Threaded nodes nodes' a new p q i (i + n)
  unfolding link
  link_lem zero i nodes us k eu le el sized chains = (
    nodes,
    refl,
    record {
      kept = record { key = λ x. refl; value = λ x. refl; level = λ x. refl; size = λ x. refl };
      inner = λ j lo hi. absurd (omega arith);
      outer = λ j o x. refl;
    },
  )
  link_lem (suc n) i nodes us zero eu le el sized chains = absurd (omega arith)
  link_lem (suc n) i nodes us (suc k) eu le el sized chains =
      let u = last_high nodes i a p in
      let (x, e) =
        leads nodes i u q (Chain-append nodes i a p q (chains i (omega arith) (omega arith))) in
      let w = round-Linked nodes i u new x (away nodes i) e (omega (arith, sized, el)) in
      let nodes2 = set_next (set_next nodes new i x) u i new in
      let others : (j : ℕ) → i ≢ j → (y : ℕ) → next_of nodes2 y j ≡ next_of nodes y j = λ j ne y.
        set_next_level (set_next nodes new i x) u i new y j ne
        ∙ set_next_level nodes new i x y j ne in
      let (nodes', ran, t) =
        link_lem n (i + 1) nodes2 (from nodes a p (i + 1) k) k
          (sym (from-Kept a p (i + 1) k w.kept)) (omega arith) (omega (arith, w.kept.level new, el))
          (w.kept.size new ∙ sized ∙ sym (w.kept.level new))
          (λ j lo hi.
            Chain-Kept j a (p ++ q) w.kept (others j (λ z. absurd (omega arith)))
              (chains j (omega arith) (omega arith))) in
      (
        nodes',
        link-step n i new u x us (from nodes a p (i + 1) k) nodes eu e ∙ ran,
        record {
          kept = Kept-trans w.kept t.kept;
          inner = λ j lo hi. elim (ℕ_discrete i j) [
            | yes same ↦
                subst (λ y. Chain nodes' y a (p ++ new ∷ q)) same
                  (Chain-Kept i a (p ++ new ∷ q) t.kept (t.outer i (inl (omega arith))) (
                    Chain-insert i a new p q d f (ground arith) w
                      (chains i (omega arith) (omega arith))))
            | no ne ↦ t.inner j (omega arith) (omega arith)
          ];
          outer = λ j o y.
              t.outer j (beyond j o) y
              ∙ others j (λ z. elim o [ inl lt ↦ omega arith | inr ge ↦ omega arith ]) y;
        },
      )
    where
      beyond : (j : ℕ) → (j < i) ⊎ (i + suc n ≤ j) → (j < i + 1) ⊎ (i + 1 + n ≤ j)
      beyond j (inl lt) = inl (omega arith)
      beyond j (inr ge) = inr (omega arith)

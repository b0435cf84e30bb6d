-- ===== src/Structs/SkipList/Unlink.antt =====
-- The loop that takes a node out of its levels.
use libnumakit.Prelude.{
  ℕ, zero, suc, ◌+◌, ◌≤◌, ◌<◌, ◌≡◌, ◌≢◌, ◌⊎◌, inl, inr, refl, sym, ◌∙◌, true, false, some, List, [],
  ◌∷◌, ◌++◌, arith, Bool-cases, ℕ_discrete,
}
use mathlib.Core.Path.{subst}
use libnumakit.Structs.SkipList.{Nodes, next_of, set_next, unlink}
use libnumakit.Structs.SkipList.Chain.{
  high, Chain, last_high, Chain-append, Chain-high, Chain-low, Chain-cons_high, Chain-cons_low,
  last_high-high, last_high-low,
}
use libnumakit.Structs.SkipList.Sorted.{Differs, Distinct}
use libnumakit.Structs.SkipList.Relink.{
  Kept, Kept-trans, Chain-move, high-Kept, set_next-Kept, get_elem?-lt, set_next_self,
  set_next_other, set_next_level, last_high-All, Chain-Kept, All-append_left, All-zip,
}
use libnumakit.Structs.SkipList.Link.{from, from-Kept, leads}

-- `nodes'` leads from `u` to where `old` led.
record Skipped (nodes nodes' : Nodes) (i u old : ℕ) : Type 0 where
  pub kept : Kept nodes nodes'
  pub off : (x : ℕ) → u ≢ x → next_of nodes' x i ≡ next_of nodes x i
  pub at_u : next_of nodes' u i ≡ next_of nodes old i

Chain-remove :
    {nodes nodes' : Nodes} (i a old : ℕ) (p q : List ℕ)
    → Distinct (a ∷ (p ++ old ∷ q))
    → high nodes i old ≡ true
    → Skipped nodes nodes' i (last_high nodes i a p) old
    → Chain nodes i a (p ++ old ∷ q)
    → Chain nodes' i a (p ++ q)
Chain-remove {nodes} {nodes'} i a old [] q d e w c =
    Chain-move nodes nodes' i old a q w.at_u
      (All-zip {P = Differs a} {Q = Differs a} q (λ x ne ne'. (w.kept.level x, w.off x ne)) d.0.1
        d.0.1)
      (Chain-high nodes i a old q e c).1
Chain-remove {nodes} {nodes'} i a old (b ∷ p) q d e w c = elim (Bool-cases (high nodes i b)) [
  | inl eb ↦
      let (n, c') = Chain-high nodes i a b (p ++ old ∷ q) eb c in
      let same = last_high-high nodes i a b p eb in
      let away : last_high nodes i a (b ∷ p) ≢ a = λ z.
        last_high-All (Differs a) nodes i b p (d.0.0, All-append_left (Differs a) p (old ∷ q) d.0.1)
          (sym z ∙ same) in
      Chain-cons_high nodes' i a b (p ++ q) (high-Kept nodes nodes' i b (w.kept.level b) ∙ eb)
        (w.off a away ∙ n)
        (Chain-remove i b old p q d.1 e (subst (λ u. Skipped nodes nodes' i u old) same w) c')
  | inr eb ↦
      Chain-cons_low nodes' i a b (p ++ q) (high-Kept nodes nodes' i b (w.kept.level b) ∙ eb) (
        Chain-remove i a old p q (d.0.1, d.1.1) e
          (subst (λ u. Skipped nodes nodes' i u old) (last_high-low nodes i a b p eb) w)
          (Chain-low nodes i a b (p ++ old ∷ q) eb c))
]

-- A node that is too low for the level is not missed there.
pub Chain-remove_low :
    (nodes : Nodes) (i a old : ℕ) (p q : List ℕ)
    → high nodes i old ≡ false
    → Chain nodes i a (p ++ old ∷ q)
    → Chain nodes i a (p ++ q)
Chain-remove_low nodes i a old [] q e c = Chain-low nodes i a old q e c
Chain-remove_low nodes i a old (b ∷ p) q e c = elim (Bool-cases (high nodes i b)) [
  | inl eb ↦
      let (n, c') = Chain-high nodes i a b (p ++ old ∷ q) eb c in
      Chain-cons_high nodes i a b (p ++ q) eb n (Chain-remove_low nodes i b old p q e c')
  | inr eb ↦
      Chain-cons_low nodes i a b (p ++ q) eb
        (Chain-remove_low nodes i a old p q e (Chain-low nodes i a b (p ++ old ∷ q) eb c))
]

-- The write of one round.
round-Skipped :
    (nodes : Nodes) (i u old y : ℕ)
    → next_of nodes u i ≡ some old
    → next_of nodes old i ≡ some y
    → Skipped nodes (set_next nodes u i y) i u old
round-Skipped nodes i u old y e ey = record {
  kept = set_next-Kept nodes u i y;
  off = λ x ne. set_next_other nodes u i y x ne;
  at_u = set_next_self nodes u i y (get_elem?-lt (nodes u).next i e) ∙ sym ey;
}

unlink-step :
    (n i old u y : ℕ) (us rest : List ℕ) (nodes : Nodes)
    → us ≡ u ∷ rest
    → next_of nodes u i ≡ some old
    → next_of nodes old i ≡ some y
    → unlink (suc n) i old us nodes ≡ unlink n (i + 1) old rest (set_next nodes u i y)
unfolding unlink
unlink-step n i old u y us rest nodes eu e ey =
    rw (eu, unlink) (rw (e, unlink) (rw (ey, unlink) (ground arith)))

-- What the loop leaves: the levels from `i` on, below `m`, without the node.
pub record Unthreaded (nodes nodes' : Nodes) (a : ℕ) (l : List ℕ) (i m : ℕ) : Type 0 where
  pub kept : Kept nodes nodes'
  pub inner : (j : ℕ) → i ≤ j → j < m → Chain nodes' j a l
  pub outer : (j : ℕ) → (j < i) ⊎ (m ≤ j) → (x : ℕ) → next_of nodes' x j ≡ next_of nodes x j

module _ (a old : ℕ) (p q : List ℕ) (d : Distinct (a ∷ (p ++ old ∷ q))) where
  pub unlink_lem :
      (n i : ℕ) (nodes : Nodes) (us : List ℕ) (k : ℕ)
      → us ≡ from nodes a p i k
      → n ≤ k
      → (nodes old).level ≡ i + n
      → ((j : ℕ) → i ≤ j → j < i + n → Chain nodes j a (p ++ old ∷ q))
      → (nodes' : Nodes) × (unlink n i old us nodes ≡ some nodes')
        × Unthreaded nodes nodes' a (p ++ q) i (i + n)
  unfolding unlink
  unlink_lem zero i nodes us k eu le el chains = (
    nodes,
    refl,
    record {
      kept = record { key = λ x. refl; value = λ x. refl; level = λ x. refl; size = λ x. refl };
      inner = λ j lo hi. absurd (omega arith);
      outer = λ j o x. refl;
    },
  )
  unlink_lem (suc n) i nodes us zero eu le el chains = absurd (omega arith)
  unlink_lem (suc n) i nodes us (suc k) eu le el chains =
      let u = last_high nodes i a p in
      let tall : high nodes i old ≡ true = ground arith in
      let c = chains i (omega arith) (omega arith) in
      let (e, c') = Chain-high nodes i u old q tall (Chain-append nodes i a p (old ∷ q) c) in
      let (y, ey) = leads nodes i old q c' in
      let w = round-Skipped nodes i u old y e ey in
      let others : (j : ℕ)
          → i ≢ j
          → (x : ℕ) → next_of (set_next nodes u i y) x j ≡ next_of nodes x j =
        λ j ne x. set_next_level nodes u i y x j ne in
      let (nodes', ran, t) =
        unlink_lem n (i + 1) (set_next nodes u i y) (from nodes a p (i + 1) k) k
          (sym (from-Kept a p (i + 1) k w.kept)) (omega arith) (omega (arith, w.kept.level old, el))
          (λ j lo hi.
            Chain-Kept j a (p ++ old ∷ q) w.kept (others j (λ z. absurd (omega arith)))
              (chains j (omega arith) (omega arith))) in
      (
        nodes',
        unlink-step n i old u y us (from nodes a p (i + 1) k) nodes eu e ey ∙ ran,
        record {
          kept = Kept-trans w.kept t.kept;
          inner = λ j lo hi. elim (ℕ_discrete i j) [
            | yes same ↦
                subst (λ x. Chain nodes' x a (p ++ q)) same
                  (Chain-Kept i a (p ++ q) t.kept (t.outer i (inl (omega arith)))
                    (Chain-remove i a old p q d tall w c))
            | no ne ↦ t.inner j (omega arith) (omega arith)
          ];
          outer = λ j o x.
              t.outer j (beyond j o) x
              ∙ others j (λ z. elim o [ inl lt ↦ omega arith | inr ge ↦ omega arith ]) x;
        },
      )
    where
      beyond : (j : ℕ) → (j < i) ⊎ (i + suc n ≤ j) → (j < i + 1) ⊎ (i + 1 + n ≤ j)
      beyond j (inl lt) = inl (omega arith)
      beyond j (inr ge) = inr (omega arith)

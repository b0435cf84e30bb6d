-- ===== src/Sync/Mcs/Chain.antt =====
-- The threads that wait for the MCS lock, each behind the one before, and what the accesses of the
-- threads do to such a chain.
use libnumakit.Prelude.{
  ℕ, ◌≡◌, ◌≢◌, ◌⊎◌, inl, inr, true, false, Option, none, some, List, [], ◌∷◌, ◌++◌, arith, ◌==◌,
  refl, Bool-cases, ◌∙◌, sym,
}
use mathlib.Core.Path.{subst}
use libnumakit.Sync.Threads.{update, member, Distinct}
use libnumakit.Sync.Mcs.{
  Pc, idle, swap, link, spin, inside, release, wait, grant, Node, State, at, link_to,
}

abbrev pub last_from : ℕ → List ℕ → ℕ
last_from a [] = a
last_from a (b ∷ q) = last_from b q

abbrev pub last? : List ℕ → Option ℕ
last? [] = none
last? (a ∷ q) = some (last_from a q)

-- Thread `b`, which stands behind `a`: it is about to write to the node of `a`, or has done so.
abbrev pub Behind : Node → ℕ → Node → ℕ → Type 0
Behind ma a mb b = ((mb.pc ≡ link a) × (ma.next ≡ none)) ⊎ ((mb.pc ≡ spin) × (ma.next ≡ some b))

-- The threads of a list wait behind `a`, each behind the one before.
abbrev pub Chain : (ℕ → Node) → ℕ → List ℕ → Type 0
Chain node a [] = (node a).next ≡ none
Chain node a (b ∷ q) = ((node b).locked ≡ true) × Behind (node a) a (node b) b × Chain node b q

-- The thread in front has the lock, or finds itself unlocked at its next look.
abbrev pub Head : Pc → Node → List ℕ → Type 0
Head spin m q = m.locked ≡ false
Head inside m q = Unit
Head release m q = Unit
Head wait m q = q ≢ []
Head grant m q = m.next ≢ none
Head _ m q = ⊥

abbrev pub Front : (ℕ → Node) → List ℕ → Type 0
Front node [] = Unit
Front node (a ∷ q) = Head (node a).pc (node a) q × Chain node a q

-- A thread that is not in the queue.
abbrev pub Outside : Node → Type 0
Outside m = (m.pc ≡ idle) ⊎ ((m.pc ≡ swap) × (m.next ≡ none) × (m.locked ≡ true))

pub record Queued (s : State) (q : List ℕ) : Type 0 where
  pub distinct : Distinct q
  pub ends : s.tail ≡ last? q
  pub front : Front s.node q
  pub rest : (i : ℕ) → member i q ≡ false → Outside (s.node i)

pub Chain-update :
    (node : ℕ → Node) (j a : ℕ) (m : Node) (q : List ℕ)
    → member j (a ∷ q) ≡ false
    → Chain node a q
    → Chain (update node j m) a q
Chain-update node j a m [] h c = ground arith
Chain-update node j a m (b ∷ q) h c = ground (arith, Chain-update node j b m q)

-- What is behind a thread depends on its node's `next` only.
pub Chain-self :
    (node : ℕ → Node) (a : ℕ) (m : Node) (q : List ℕ)
    → member a q ≡ false
    → m.next ≡ (node a).next
    → Chain node a q
    → Chain (update node a m) a q
Chain-self node a m [] h e c = ground arith
Chain-self node a m (b ∷ q) h e c = ground (arith, Chain-update node a b m q)

pub Chain-waits :
    (node : ℕ → Node) (i a : ℕ) (q : List ℕ)
    → member i q ≡ true
    → Chain node a q
    → ((node i).locked ≡ true) × (((node i).pc ≡ spin) ⊎ ((p : ℕ) × ((node i).pc ≡ link p)))
Chain-waits node i a [] h c = cc
Chain-waits node i a (b ∷ q) h c = elim (Bool-cases (i == b)) [
  | inl here ↦ behind (subst (λ j. Chain node a (j ∷ q)) {x = b} {y = i} (ground arith) c)
  | inr later ↦ Chain-waits node i b q (ground arith) c.2
]
  where
    behind :
        Chain node a (i ∷ q)
        → ((node i).locked ≡ true) × (((node i).pc ≡ spin) ⊎ ((p : ℕ) × ((node i).pc ≡ link p)))
    behind c' = elim c'.1 [
      | inl unlinked ↦ (c'.0, inr (a, unlinked.0))
      | inr linked ↦ (c'.0, inl linked.0)
    ]

-- The node that a thread is about to write to stands in the queue.
pub Chain-linked :
    (node : ℕ → Node) (i p a : ℕ) (q : List ℕ)
    → member i q ≡ true
    → (node i).pc ≡ link p
    → Chain node a q
    → member p (a ∷ q) ≡ true
Chain-linked node i p a [] h e c = cc
Chain-linked node i p a (b ∷ q) h e c = elim (Bool-cases (i == b)) [
  | inl here ↦ ground arith
  | inr later ↦ (let back = Chain-linked node i p b q (ground arith) e c.2 in ground arith)
]

pub Chain-append :
    (node : ℕ → Node) (i a : ℕ) (m : Node) (q : List ℕ)
    → member i (a ∷ q) ≡ false
    → m.pc ≡ link (last_from a q)
    → m.next ≡ none
    → m.locked ≡ true
    → Chain node a q
    → Chain (update node i m) a (q ++ i ∷ [])
Chain-append node i a m [] h ep en el c = (ground arith, ground arith, ground arith)
Chain-append node i a m (b ∷ q) h ep en el c = ground (arith, Chain-append node i b m q)

-- The write of the thread that is right behind `a`.
Chain-join_first :
    (node : ℕ → Node) (i a : ℕ) (q : List ℕ)
    → Distinct (a ∷ i ∷ q)
    → Chain node a (i ∷ q)
    → Chain (link_to node a i) a (i ∷ q)
unfolding link_to
Chain-join_first node i a q d c = (
  ground arith,
  inr (ground arith, ground arith),
  Chain-self (update node a (record (node a) { next = some i })) i
      (at (update node a (record (node a) { next = some i }) i) spin) q d.1.0 refl
      (Chain-update node a i (record (node a) { next = some i }) q d.0 c.2),
)

Behind-eq :
    (ma ma' mb mb' : Node) (a b : ℕ)
    → ma'.next ≡ ma.next
    → mb'.pc ≡ mb.pc
    → Behind ma a mb b
    → Behind ma' a mb' b
Behind-eq ma ma' mb mb' a b en ep (inl h) = inl (ep ∙ h.0, en ∙ h.1)
Behind-eq ma ma' mb mb' a b en ep (inr h) = inr (ep ∙ h.0, en ∙ h.1)

pub Chain-join :
    (node : ℕ → Node) (i p a : ℕ) (q : List ℕ)
    → Distinct (a ∷ q)
    → member i q ≡ true
    → (node i).pc ≡ link p
    → Chain node a q
    → Chain (link_to node p i) a q
unfolding link_to
Chain-join node i p a [] d h e c = cc
Chain-join node i p a (b ∷ q) d h e c = elim (Bool-cases (i == b)) [
  | inl here ↦
      let same : b ≡ i = ground arith in
      let own : p ≡ a = first (subst (λ j. Behind (node a) a (node j) j) same c.1) in
      subst (λ j. Chain (link_to node p i) a (j ∷ q)) (sym same)
        (subst (λ x. Chain (link_to node x i) a (i ∷ q)) (sym own)
          (Chain-join_first node i a q (subst (λ j. Distinct (a ∷ j ∷ q)) same d)
            (subst (λ j. Chain node a (j ∷ q)) same c)))
  | inr later ↦
      let other = Chain-linked node i p b q (ground arith) e c.2 in
      (
        ground arith,
        Behind-eq (node a) (link_to node p i a) (node b) (link_to node p i b) a b (ground arith)
            (ground arith) c.1,
        Chain-join node i p b q d.1 (ground arith) e c.2,
      )
]
  where
    first : Behind (node a) a (node i) i → p ≡ a
    first f = ground arith

pub last_from-member : (a : ℕ) (q : List ℕ) → member (last_from a q) (a ∷ q) ≡ true
last_from-member a [] = ground arith
last_from-member a (b ∷ q) = ground (arith, last_from-member b q)

pub last_from-append : (a i : ℕ) (q : List ℕ) → last_from a (q ++ i ∷ []) ≡ i
last_from-append a i [] = refl
last_from-append a i (b ∷ q) = last_from-append b i q

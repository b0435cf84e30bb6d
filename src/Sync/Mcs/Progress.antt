-- ===== src/Sync/Mcs/Progress.antt =====
-- The accesses of the MCS lock go to nodes that are in use, and never do all threads only poll.
use libnumakit.Prelude.{
  ℕ, ◌≡◌, ◌≢◌, ◌⊎◌, inl, inr, true, false, none, some, List, [], ◌∷◌, arith, refl, Bool-cases, sym,
}
use mathlib.Core.Path.{subst}
use libnumakit.Sync.Threads.{member}
use libnumakit.Sync.Mcs.{
  Pc, idle, swap, link, spin, inside, release, wait, grant, Node, State, Reach,
}
use libnumakit.Sync.Mcs.Chain.{Head, Front, Chain, Behind, Queued, Chain-linked}
use libnumakit.Sync.Mcs.Queue.{Reach-Queued}
use libnumakit.Sync.Mcs.Front.{away, busy_member, in_front}

-- The thread's next access is no round of a loop that goes on.
abbrev pub Moves : Pc → Node → Type 0
Moves idle m = ⊥
Moves spin m = m.locked ≡ false
Moves wait m = m.next ≢ none
Moves _ m = Unit

Head-Moves :
    (p : Pc) (node : ℕ → Node) (a b : ℕ) (q : List ℕ)
    → Head p (node a) (b ∷ q)
    → Behind (node a) a (node b) b
    → Moves p (node a) ⊎ Moves (node b).pc (node b)
Head-Moves idle node a b q h f = elim h [ ]
Head-Moves swap node a b q h f = elim h [ ]
Head-Moves (link p) node a b q h f = elim h [ ]
Head-Moves spin node a b q h f = inl h
Head-Moves inside node a b q h f = inl tt
Head-Moves release node a b q h f = inl tt
Head-Moves wait node a b q h (inl e) = inr (subst (λ x. Moves x (node b)) (sym e.0) tt)
Head-Moves wait node a b q h (inr e) = inl (λ x. cc)
Head-Moves grant node a b q h f = inl tt

alone-Moves : (p : Pc) (m : Node) → Head p m [] → Moves p m
alone-Moves idle m h = elim h [ ]
alone-Moves swap m h = elim h [ ]
alone-Moves (link p) m h = elim h [ ]
alone-Moves spin m h = h
alone-Moves inside m h = tt
alone-Moves release m h = tt
alone-Moves wait m h = absurd (h refl)
alone-Moves grant m h = tt

Queued-Moves :
    {s : State} (q : List ℕ) (i : ℕ)
    → Queued s q
    → (s.node i).pc ≢ idle
    → (j : ℕ) × Moves (s.node j).pc (s.node j)
Queued-Moves {s} [] i v busy = elim (v.rest i refl) [
  | inl e ↦ absurd (busy e)
  | inr e ↦ (i, subst (λ x. Moves x (s.node i)) (sym e.0) tt)
]
Queued-Moves {s} (a ∷ []) i v busy = (a, alone-Moves (s.node a).pc (s.node a) v.front.0)
Queued-Moves {s} (a ∷ b ∷ q) i v busy =
    elim (Head-Moves (s.node a).pc s.node a b q v.front.0 v.front.1.1) [
      | inl first ↦ (a, first)
      | inr second ↦ (b, second)
    ]

-- In every state that threads reach and in which some thread is not outside the MCS lock, some
-- thread's next access is no round of a loop that goes on.
pub not_stuck :
    {s : State}
    → Reach s
    → (i : ℕ) → (s.node i).pc ≢ idle
    → (j : ℕ) × Moves (s.node j).pc (s.node j)
not_stuck r i busy = let (q, v) = Reach-Queued r in Queued-Moves q i v busy

Chain-next :
    (node : ℕ → Node) (a : ℕ) (q : List ℕ)
    → Chain node a q
    → (node a).next ≢ none
    → (j : ℕ) × ((node a).next ≡ some j) × ((node j).pc ≡ spin)
Chain-next node a [] c ne = absurd (ne c)
Chain-next node a (b ∷ q) c ne = elim c.1 [ inl e ↦ absurd (ne e.1) | inr e ↦ (b, e.1, e.0) ]

grants :
    (node : ℕ → Node) (i : ℕ) (q : List ℕ)
    → (node i).pc ≡ grant
    → Front node (i ∷ q)
    → (j : ℕ) × ((node i).next ≡ some j) × ((node j).pc ≡ spin)
grants node i q e f = Chain-next node i q f.1 (subst (λ x. Head x (node i) q) e f.0)

linked_busy :
    (node : ℕ → Node) (i p : ℕ) (q : List ℕ)
    → member i q ≡ true
    → (node i).pc ≡ link p
    → Front node q
    → member p q ≡ true
linked_busy node i p [] h e f = cc
linked_busy node i p (a ∷ q) h e f = elim (Bool-cases (member i q)) [
  | inl behind ↦ Chain-linked node i p a q behind e f.1
  | inr first ↦
      absurd
        (head_links (subst (λ j. Head (node j).pc (node j) q) {x = a} {y = i} (ground arith) f.0))
]
  where
    head_links : Head (node i).pc (node i) q → ⊥
    head_links x = subst (λ y. Head y (node i) q) e x

-- A thread that is about to unlock the next one has a next one, which spins.
pub grant_next :
    {s : State}
    → Reach s
    → (i : ℕ) → (s.node i).pc ≡ grant
    → (j : ℕ) × ((s.node i).next ≡ some j) × ((s.node j).pc ≡ spin)
grant_next {s} r i e =
    let (q, v) = Reach-Queued r in
    let (q', at_front) = in_front v i (inl (rw e tt)) in
    grants s.node i q' e (subst (Front s.node) at_front v.front)

-- The next access of a thread writes to the node of another thread.
abbrev pub Writes : Node → ℕ → Type 0
Writes m p = (m.pc ≡ link p) ⊎ ((m.pc ≡ grant) × (m.next ≡ some p))

-- In every state that threads reach, when the next access of a thread writes to the node of another
-- thread, that one is in the queue of the MCS lock: its thread is neither outside nor yet to
-- exchange the tail.
pub live_target :
    {s : State}
    → Reach s
    → (i p : ℕ) → Writes (s.node i) p
    → ((s.node p).pc ≢ idle) × ((s.node p).pc ≢ swap)
live_target {s} r i p (inl e) =
    let (q, v) = Reach-Queued r in
    let there = linked_busy s.node i p q (busy_member v i (λ x. cc) (λ x. cc)) e v.front in
    (λ x. cc (away v p (inl x)), λ x. cc (away v p (inr x)))
live_target r i p (inr e) = let (j, ej, spins) = grant_next r i e.0 in (λ x. cc, λ x. cc)

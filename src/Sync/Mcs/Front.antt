-- ===== src/Sync/Mcs/Front.antt =====
-- The MCS lock's queue: who stands in front, and who stands in it at all.
use libnumakit.Prelude.{
  ℕ, ◌≡◌, ◌≢◌, ◌⊎◌, inl, inr, true, false, none, some, List, [], ◌∷◌, ◌++◌, arith, ◌==◌, refl,
  Bool-cases,
}
use mathlib.Core.Path.{subst}
use libnumakit.Sync.Threads.{member}
use libnumakit.Sync.Mcs.{Pc, idle, swap, link, spin, inside, release, wait, grant, Node, State}
use libnumakit.Sync.Mcs.Chain.{Head, Front, Queued, Chain-waits}

-- The places that only the thread in front can be at.
abbrev pub Owns : Pc → Type 0
Owns inside = Unit
Owns release = Unit
Owns wait = Unit
Owns grant = Unit
Owns _ = ⊥

pub Head-busy : (p : Pc) (m : Node) (q : List ℕ) → Head p m q → (p ≢ idle) × (p ≢ swap)
Head-busy idle m q h = elim h [ ]
Head-busy swap m q h = elim h [ ]
Head-busy (link p) m q h = elim h [ ]
Head-busy spin m q h = (λ e. cc, λ e. cc)
Head-busy inside m q h = (λ e. cc, λ e. cc)
Head-busy release m q h = (λ e. cc, λ e. cc)
Head-busy wait m q h = (λ e. cc, λ e. cc)
Head-busy grant m q h = (λ e. cc, λ e. cc)

pub Owns-fronts : (p : Pc) → Owns p → (p ≢ spin) × ((j : ℕ) → p ≢ link j)
Owns-fronts idle o = elim o [ ]
Owns-fronts swap o = elim o [ ]
Owns-fronts (link p) o = elim o [ ]
Owns-fronts spin o = elim o [ ]
Owns-fronts inside o = (λ e. cc, λ j e. cc)
Owns-fronts release o = (λ e. cc, λ j e. cc)
Owns-fronts wait o = (λ e. cc, λ j e. cc)
Owns-fronts grant o = (λ e. cc, λ j e. cc)

-- The thread in front stays there when another joins, and when its node gets its `next`.
pub Head-append : (p : Pc) (m : Node) (q : List ℕ) (i : ℕ) → Head p m q → Head p m (q ++ i ∷ [])
Head-append idle m q i h = elim h [ ]
Head-append swap m q i h = elim h [ ]
Head-append (link p) m q i h = elim h [ ]
Head-append spin m q i h = h
Head-append inside m q i h = tt
Head-append release m q i h = tt
Head-append wait m [] i h = λ e. cc
Head-append wait m (b ∷ q) i h = λ e. cc
Head-append grant m q i h = h

pub Head-next :
    (p : Pc) (m : Node) (q : List ℕ) (i : ℕ) → Head p m q → Head p (record m { next = some i }) q
Head-next idle m q i h = elim h [ ]
Head-next swap m q i h = elim h [ ]
Head-next (link p) m q i h = elim h [ ]
Head-next spin m q i h = h
Head-next inside m q i h = tt
Head-next release m q i h = tt
Head-next wait m q i h = h
Head-next grant m q i h = λ e. cc

-- A thread of the queue is in front, or waits.
pub Front-place :
    (node : ℕ → Node) (i : ℕ) (q : List ℕ)
    → member i q ≡ true
    → Front node q
    → ((q' : List ℕ) × (q ≡ i ∷ q') × Front node (i ∷ q'))
      ⊎ (((node i).locked ≡ true) × (((node i).pc ≡ spin) ⊎ ((p : ℕ) × ((node i).pc ≡ link p))))
Front-place node i [] h f = cc
Front-place node i (a ∷ q) h f = elim (Bool-cases (i == a)) [
  | inl here ↦
      let same : a ≡ i = ground arith in
      inl (q, rw same refl, subst (λ j. Front node (j ∷ q)) same f)
  | inr later ↦ inr (Chain-waits node i a q (ground arith) f.1)
]

module _ {s : State} {q : List ℕ} (v : Queued s q) where
  pub busy_member : (i : ℕ) → (s.node i).pc ≢ idle → (s.node i).pc ≢ swap → member i q ≡ true
  busy_member i busy on = elim (Bool-cases (member i q)) [
    | inl there ↦ there
    | inr away ↦ elim (v.rest i away) [ inl e ↦ absurd (busy e) | inr e ↦ absurd (on e.0) ]
  ]

  pub in_front :
      (i : ℕ)
      → Owns (s.node i).pc ⊎ (((s.node i).pc ≡ spin) × ((s.node i).locked ≡ false))
      → (q' : List ℕ) × (q ≡ i ∷ q')
  in_front i (inl o) =
      let (no_spin, no_link) = Owns-fronts (s.node i).pc o in
      elim (Front-place s.node i q (busy_member i (λ e. subst Owns e o) (λ e. subst Owns e o))
        v.front) [
          | inl (q', e, f) ↦ (q', e)
          | inr (l, inl e) ↦ absurd (no_spin e)
          | inr (l, inr (p, e)) ↦ absurd (no_link p e)
        ]
  in_front i (inr h) = elim (Front-place s.node i q (busy_member i (λ e. cc) (λ e. cc)) v.front) [
    | inl (q', e, f) ↦ (q', e)
    | inr (l, w) ↦ cc
  ]

  pub away : (i : ℕ) → ((s.node i).pc ≡ idle) ⊎ ((s.node i).pc ≡ swap) → member i q ≡ false
  away i h = elim (Bool-cases (member i q)) [
    | inr gone ↦ gone
    | inl there ↦ elim (Front-place s.node i q there v.front) [
      | inl (q', e, f) ↦
          let (no_idle, no_swap) = Head-busy (s.node i).pc (s.node i) q' f.0 in
          elim h [ inl x ↦ absurd (no_idle x) | inr x ↦ absurd (no_swap x) ]
      | inr (l, w) ↦ ground arith
    ]
  ]

  pub away_fresh :
      (i : ℕ) → (s.node i).pc ≡ swap → ((s.node i).next ≡ none) × ((s.node i).locked ≡ true)
  away_fresh i e = elim (v.rest i (away i (inr e))) [ inl x ↦ cc | inr x ↦ (x.1, x.2) ]

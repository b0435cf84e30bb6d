-- ===== src/Sync/Ticket/Line.antt =====
-- The threads that wait for the ticket lock stand in a line.
use libnumakit.Prelude.{
  ℕ, suc, ◌+◌, ◌%◌, ◌^◌, ◌<◌, ◌≡◌, ◌≢◌, ◌⊎◌, inl, inr, true, false, List, [], ◌∷◌, ◌++◌, length,
  arith, ◌==◌, get_elem?, some, Bool-cases, ap, ◌∙◌,
}
use mathlib.Core.Path.{subst}
use libnumakit.Sync.Threads.{update, member, Distinct, Below}
use libnumakit.Sync.Ticket.{Pc, idle, spin, inside, State}

-- The threads of a list spin with consecutive tickets from `t` on.
abbrev pub Lined : (ℕ → Pc) → ℕ → List ℕ → Type 0
Lined pc t [] = Unit
Lined pc t (i ∷ q) = (pc i ≡ spin t) × Lined pc ((t + 1) % 2 ^ 32) q

-- So do the threads of the queue, except that the first may be inside.
abbrev pub Front : (ℕ → Pc) → ℕ → List ℕ → Type 0
Front pc t [] = Unit
Front pc t (i ∷ q) = ((pc i ≡ spin t) ⊎ (pc i ≡ inside)) × Lined pc ((t + 1) % 2 ^ 32) q

pub record Queued (n : ℕ) (s : State) (q : List ℕ) : Type 0 where
  pub distinct : Distinct q
  pub below : Below n q
  pub next_ticket : s.lock.ticket ≡ (s.lock.serving + length q) % 2 ^ 32
  pub small : s.lock.serving < 2 ^ 32
  pub front : Front s.pc s.lock.serving q
  pub rest : (i : ℕ) → member i q ≡ false → s.pc i ≡ idle

pub Lined-update :
    (pc : ℕ → Pc) (t i : ℕ) (p : Pc) (q : List ℕ)
    → member i q ≡ false
    → Lined pc t q
    → Lined (update pc i p) t q
Lined-update pc t i p [] h l = tt
Lined-update pc t i p (j ∷ q) h l = ground (arith, Lined-update pc ((t + 1) % 2 ^ 32) i p q)

pub Lined-append :
    (pc : ℕ → Pc) (t i x : ℕ) (q : List ℕ)
    → t < 2 ^ 32
    → x ≡ (t + length q) % 2 ^ 32
    → member i q ≡ false
    → Lined pc t q
    → Lined (update pc i (spin x)) t (q ++ i ∷ [])
Lined-append pc t i x [] small e h l = ground arith
Lined-append pc t i x (j ∷ q) small e h l = (
  ground arith,
  Lined-append pc ((t + 1) % 2 ^ 32) i x q (omega arith) (omega arith) (ground arith) l.1,
)

pub Front-append :
    (pc : ℕ → Pc) (t i x : ℕ) (q : List ℕ)
    → t < 2 ^ 32
    → x ≡ (t + length q) % 2 ^ 32
    → member i q ≡ false
    → Front pc t q
    → Front (update pc i (spin x)) t (q ++ i ∷ [])
Front-append pc t i x [] small e h l = ground arith
Front-append pc t i x (j ∷ q) small e h l = (
  ground arith,
  Lined-append pc ((t + 1) % 2 ^ 32) i x q (omega arith) (omega arith) (ground arith) l.1,
)

-- A thread of a line has the ticket of its place.
pub Lined-place :
    (pc : ℕ → Pc) (t i : ℕ) (q : List ℕ)
    → t < 2 ^ 32
    → member i q ≡ true
    → Lined pc t q
    → (d : ℕ) × (d < length q) × (pc i ≡ spin ((t + d) % 2 ^ 32)) × (get_elem? q d ≡ some i)
Lined-place pc t i [] small h l = cc
Lined-place pc t i (j ∷ q) small h l = elim (Bool-cases (i == j)) [
  | inl here ↦ (0, omega arith, ground arith, ground arith)
  | inr later ↦
      let (d, lt, e, at_d) =
        Lined-place pc ((t + 1) % 2 ^ 32) i q (omega arith) (ground arith) l.1 in
      (suc d, omega arith, e ∙ ap spin (omega arith), at_d)
]

-- A thread of the queue is in front, or spins with the ticket of its place.
pub Front-place :
    (pc : ℕ → Pc) (t i : ℕ) (q : List ℕ)
    → t < 2 ^ 32
    → member i q ≡ true
    → Front pc t q
    → ((q' : List ℕ) × (q ≡ i ∷ q'))
      ⊎ ((d : ℕ) × (0 < d)
          × (d < length q)
          × (pc i ≡ spin ((t + d) % 2 ^ 32))
          × (get_elem? q d ≡ some i))
Front-place pc t i [] small h f = cc
Front-place pc t i (j ∷ q) small h f = elim (Bool-cases (i == j)) [
  | inl here ↦ inl (q, ground arith)
  | inr later ↦
      let (d, lt, e, at_d) =
        Lined-place pc ((t + 1) % 2 ^ 32) i q (omega arith) (ground arith) f.1 in
      inr (suc d, omega arith, omega arith, e ∙ ap spin (omega arith), at_d)
]

-- A thread that is not idle is in the queue.
pub busy_member :
    {n : ℕ} {s : State} {q : List ℕ} (i : ℕ) → Queued n s q → s.pc i ≢ idle → member i q ≡ true
busy_member {n} {s} {q} i v busy = elim (Bool-cases (member i q)) [
  | inl there ↦ there
  | inr away ↦ absurd (busy (v.rest i away))
]

pub idle_away :
    {n : ℕ} {s : State} {q : List ℕ} (i : ℕ) → Queued n s q → s.pc i ≡ idle → member i q ≡ false
idle_away {n} {s} {q} i v e = elim (Bool-cases (member i q)) [
  | inr away ↦ away
  | inl there ↦ elim (Front-place s.pc s.lock.serving i q v.small there v.front) [
    | inl (q', at_front) ↦
        absurd (head_busy q' (subst (λ l. Front s.pc s.lock.serving l) at_front v.front))
    | inr (d, _, _, spins, _) ↦ cc
  ]
]
  where
    head_busy : (q' : List ℕ) → Front s.pc s.lock.serving (i ∷ q') → ⊥
    head_busy q' f = ground arith

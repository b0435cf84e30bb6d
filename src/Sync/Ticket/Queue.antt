-- ===== src/Sync/Ticket/Queue.antt =====
-- The ticket lock is a queue of threads: whoever takes a ticket joins at the end, only the thread in
-- front may be inside, and leaving takes it off.
use libnumakit.Prelude.{
  ℕ, ◌+◌, ◌-◌, ◌%◌, ◌^◌, ◌≤◌, ◌<◌, ◌≡◌, ◌⊎◌, inl, inr, true, List, [], ◌∷◌, ◌++◌, length, arith,
  get_elem?, some, refl, length-append, ap, ◌∙◌, sym,
}
use mathlib.Core.Path.{subst}
use libnumakit.Sync.Threads.{
  update, member, member-append, append-Distinct, append-Below, length-le_of_Below,
}
use libnumakit.Sync.Ticket.{
  Pc, idle, spin, inside, take_ticket, unlock, distance, State, start, Step, take, poll, enter,
  leave, Reach, begin, next,
}
use libnumakit.Sync.Ticket.Line.{
  Lined, Front, Queued, Lined-update, Front-append, Front-place, busy_member, idle_away,
}

-- The queue behind a step: the same, one thread longer, or without the thread in front.
abbrev pub Advance : List ℕ → List ℕ → Type 0
Advance q q' = (q' ≡ q) ⊎ ((i : ℕ) × (q' ≡ q ++ i ∷ [])) ⊎ ((i : ℕ) × (q ≡ i ∷ q'))

module _ {n : ℕ} (few : n ≤ 2 ^ 32) {s : State} {q : List ℕ} (v : Queued n s q) where
  room : length q ≤ 2 ^ 32
  room = omega (arith, length-le_of_Below n q v.distinct v.below)

  -- The thread that sees its own ticket served, or is inside, is the one in front.
  in_front :
      (i : ℕ) → (s.pc i ≡ spin s.lock.serving) ⊎ (s.pc i ≡ inside) → (q' : List ℕ) × (q ≡ i ∷ q')
  in_front i h =
      elim (Front-place s.pc s.lock.serving i q v.small (busy_member i v (λ z. ground arith))
        v.front) [
          | inl front ↦ front
          | inr (d, pos, lt, spins, _) ↦
              absurd
                (not_served s.lock.serving d (s.pc i) v.small pos (omega (arith, room)) h spins)
        ]
    where
      not_served :
          (t d : ℕ) (p : Pc)
          → t < 2 ^ 32
          → 0 < d
          → d < 2 ^ 32
          → (p ≡ spin t) ⊎ (p ≡ inside)
          → p ≡ spin ((t + d) % 2 ^ 32)
          → ⊥
      not_served t d p small pos lt h e = ground arith

  take-Queued :
      (i : ℕ)
      → i < n
      → s.pc i ≡ idle
      → Queued n
          (record { lock = take_ticket s.lock; pc = update s.pc i (spin s.lock.ticket) })
          (q ++ i ∷ [])
  unfolding take_ticket
  take-Queued i lt e =
      let away = idle_away i v e in
      record {
        distinct = append-Distinct i q v.distinct away;
        below = append-Below n i q v.below lt;
        next_ticket = omega (arith, v.next_ticket, length-append q (i ∷ []));
        small = v.small;
        front =
            Front-append s.pc s.lock.serving i s.lock.ticket q v.small v.next_ticket away v.front;
        rest = λ j h. ground (arith, member-append j i q, v.rest j);
      }

enter-Queued :
    (n : ℕ) (s : State) (i : ℕ) (q : List ℕ)
    → Queued n s (i ∷ q)
    → Queued n (record s { pc = update s.pc i inside }) (i ∷ q)
enter-Queued n s i q v = record {
  distinct = v.distinct;
  below = v.below;
  next_ticket = v.next_ticket;
  small = v.small;
  front = (
    inr (ground arith),
    Lined-update s.pc ((s.lock.serving + 1) % 2 ^ 32) i inside q v.distinct.0 v.front.1,
  );
  rest = λ j h. ground (arith, v.rest j);
}

Front-Lined : (pc : ℕ → Pc) (t : ℕ) (q : List ℕ) → Lined pc t q → Front pc t q
Front-Lined pc t [] l = tt
Front-Lined pc t (i ∷ q) l = (inl l.0, l.1)

leave-Queued :
    (n : ℕ) (s : State) (i : ℕ) (q : List ℕ)
    → Queued n s (i ∷ q)
    → Queued n (record { lock = unlock s.lock; pc = update s.pc i idle }) q
unfolding unlock
leave-Queued n s i q v = record {
  distinct = v.distinct.1;
  below = v.below.1;
  next_ticket = omega (arith, v.next_ticket);
  small = omega arith;
  front =
      Front-Lined (update s.pc i idle) ((s.lock.serving + 1) % 2 ^ 32) q
        (Lined-update s.pc ((s.lock.serving + 1) % 2 ^ 32) i idle q v.distinct.0 v.front.1);
  rest = λ j h. ground (arith, v.rest j);
}

-- For up to 2^32 threads, every access of a thread acts on a queue: a ticket puts its thread at the
-- end, a look leaves the queue alone, and an unlock takes the thread in front off it.
pub Step-Queued :
    {n : ℕ} {s t : State} {q : List ℕ}
    → n ≤ 2 ^ 32
    → Queued n s q
    → Step n s t
    → (q' : List ℕ) × Queued n t q' × Advance q q'
Step-Queued {q = q} few v (take i lt e) =
    (q ++ i ∷ [], take-Queued few v i lt e, inr (inl (i, refl)))
Step-Queued {q = q} few v (poll i my e ne) = (q, v, inl refl)
Step-Queued {n} {s} {q = q} few v (enter i my e served) =
    let (q', at_front) = in_front few v i (inl (e ∙ ap spin (sym served))) in
    (i ∷ q', enter-Queued n s i q' (subst (Queued n s) at_front v), inl (sym at_front))
Step-Queued {n} {s} {q = q} few v (leave i e) =
    let (q', at_front) = in_front few v i (inr e) in
    (q', leave-Queued n s i q' (subst (Queued n s) at_front v), inr (inr (i, at_front)))

pub start-Queued : (n : ℕ) → Queued n start []
start-Queued n = record {
  distinct = tt;
  below = tt;
  next_ticket = refl;
  small = omega arith;
  front = tt;
  rest = λ i h. refl;
}

pub Reach-Queued : {n : ℕ} {s : State} → n ≤ 2 ^ 32 → Reach n s → (q : List ℕ) × Queued n s q
Reach-Queued {n} few begin = ([], start-Queued n)
Reach-Queued few (next r st) =
    let (q, v) = Reach-Queued few r in let (q', v', _) = Step-Queued few v st in (q', v')

-- In every state that up to 2^32 threads reach, no two threads are between the lock and the unlock
-- of the ticket lock.
pub mutual_exclusion :
    {n : ℕ} {s : State}
    → n ≤ 2 ^ 32
    → Reach n s
    → (i j : ℕ) → s.pc i ≡ inside
    → s.pc j ≡ inside
    → i ≡ j
mutual_exclusion few r i j hi hj =
    let (q, v) = Reach-Queued few r in
    let (qi, ei) = in_front few v i (inr hi) in
    let (qj, ej) = in_front few v j (inr hj) in cc (sym ei ∙ ej)

-- In every state that up to 2^32 threads reach and in which a thread spins, some thread is inside
-- or spins with the ticket that is served.
pub no_deadlock :
    {n : ℕ} {s : State}
    → n ≤ 2 ^ 32
    → Reach n s
    → (i my_ticket : ℕ) → s.pc i ≡ spin my_ticket
    → (j : ℕ) × ((s.pc j ≡ inside) ⊎ (s.pc j ≡ spin s.lock.serving))
no_deadlock {n} {s} few r i my e =
    let (q, v) = Reach-Queued few r in served q v (busy_member i v (λ z. ground arith))
  where
    served :
        (q : List ℕ)
        → Queued n s q
        → member i q ≡ true
        → (j : ℕ) × ((s.pc j ≡ inside) ⊎ (s.pc j ≡ spin s.lock.serving))
    served [] v h = cc
    served (j ∷ q) v h = elim v.front.0 [
      | inl spins ↦ (j, inr spins)
      | inr within ↦ (j, inl within)
    ]

distance_index :
    (t d x i : ℕ) (q : List ℕ)
    → t < 2 ^ 32
    → d < 2 ^ 32
    → get_elem? q d ≡ some i
    → x ≡ (t + d) % 2 ^ 32
    → get_elem? q (distance x t) ≡ some i
unfolding distance
distance_index t d x i q small few at_d e =
    let same_index : (x + 2 ^ 32 - t) % 2 ^ 32 ≡ d = omega arith in rw same_index at_d

-- For up to 2^32 threads, the number of pauses of a spinning thread is its index in the queue, the
-- number of threads in front of it.
pub distance_place :
    {n : ℕ} {s : State} {q : List ℕ}
    → n ≤ 2 ^ 32
    → Queued n s q
    → (i my_ticket : ℕ) → s.pc i ≡ spin my_ticket
    → get_elem? q (distance my_ticket s.lock.serving) ≡ some i
distance_place {s = s} {q = q} few v i my e =
    elim (Front-place s.pc s.lock.serving i q v.small (busy_member i v (λ z. ground arith))
      v.front) [
        | inl (q', at_front) ↦
            distance_index s.lock.serving 0 my i q v.small (omega arith) (rw at_front)
              (front_ticket q' (subst (λ l. Front s.pc s.lock.serving l) at_front v.front))
        | inr (d, pos, lt, spins, at_d) ↦
            distance_index s.lock.serving d my i q v.small (omega (arith, room few v)) at_d
              (ground arith)
      ]
  where
    front_ticket :
        (q' : List ℕ) → Front s.pc s.lock.serving (i ∷ q') → my ≡ (s.lock.serving + 0) % 2 ^ 32
    front_ticket q' f = let here : my ≡ s.lock.serving = ground arith in omega (arith, v.small)

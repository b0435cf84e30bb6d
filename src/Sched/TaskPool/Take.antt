-- ===== src/Sched/TaskPool/Take.antt =====
-- A worker takes a task from the back of its node's queue, or from the front of another's.
use libnumakit.Prelude.{
  ℕ, zero, suc, ◌-◌, ◌<◌, ◌≡◌, inl, inr, refl, ap, sym, ◌∙◌, Bool, true, false, Option, none, some,
  List, [], ◌∷◌, ◌++◌, length, length-append, arith, ltb, if◌then◌else◌, ◌==◌, not, ◌&&◌,
  Bool-cases,
}
use mathlib.Core.Path.{subst}
use libnumakit.Structs.Deque
use libnumakit.Structs.Deque.{Deque}
use libnumakit.Structs.Deque.Refine as Items
use libnumakit.Structs.Deque.Refine.{steal_lem}
use libnumakit.Structs.Deque.Owner.{pop_lem, empty_lem}
use libnumakit.Sched.TaskPool.{Pool, with_queue, steal_from, steal_loop, take_task}
use libnumakit.Sched.TaskPool.Conserve.{Tasks, IsPool, occurs, occurs-append}
use libnumakit.Sched.TaskPool.Steal.{
  Each, Thieves, Took, Stole, last_view, taken_out, untouched, steal_from_lem,
}

-- How a round of the loop ends.
loop-on :
    (n j : ℕ) (order : List ℕ) (p p' : Pool)
    → steal_from p j ≡ some (none, p')
    → steal_loop (suc n) (j ∷ order) p ≡ steal_loop n order p'
unfolding steal_loop
loop-on n j order p p' e = rw (e, steal_loop) refl

loop-stop :
    (n j t : ℕ) (order : List ℕ) (p p' : Pool)
    → steal_from p j ≡ some (some t, p')
    → steal_loop (suc n) (j ∷ order) p ≡ some (some t, p')
unfolding steal_loop
loop-stop n j t order p p' e = rw (e, steal_loop) refl

steal_loop_lem :
    {k : ℕ} {l : ℕ → Tasks} (n : ℕ) (order : List ℕ) (p : Pool)
    → IsPool k p l
    → Each (λ j. j < p.num_nodes) order
    → length order ≡ n
    → (o : Option ℕ) × (p' : Pool) × (steal_loop n order p ≡ some (o, p')) × Stole k l order p' o
unfolding steal_loop
steal_loop_lem zero [] p v h e = (none, p, refl, (tt, v))
steal_loop_lem zero (j ∷ order) p v h e = absurd (omega arith)
steal_loop_lem (suc n) [] p v h e = absurd (omega arith)
steal_loop_lem {k} {l} (suc n) (j ∷ order) p v h e =
    round
      (λ p' v' same.
        steal_loop_lem n order p' v' (subst (λ m. Each (λ i. i < m) order) (sym same) h.1)
          (omega (arith, e)))
      (steal_from_lem v j h.0 (l j).queued refl)
  where
    round :
        ((p' : Pool)
          → IsPool k p' l
          → p'.num_nodes ≡ p.num_nodes
          → (o : Option ℕ) × (p'' : Pool) × (steal_loop n order p' ≡ some (o, p''))
            × Stole k l order p'' o)
        → (o : Option ℕ) × (p' : Pool) × (steal_from p j ≡ some (o, p'))
          × Stole k l (j ∷ []) p' o
          × (p'.num_nodes ≡ p.num_nodes)
        → (o : Option ℕ) × (p' : Pool) × (steal_loop (suc n) (j ∷ order) p ≡ some (o, p'))
          × Stole k l (j ∷ order) p' o
    round go_on (some t, p', ran, stole, same) = (some t, p', loop-stop n j t order p p' ran, stole)
    round go_on (none, p', ran, ((empty, u), v'), same) = later (go_on p' v' same)
      where
        later :
            (o : Option ℕ) × (p'' : Pool) × (steal_loop n order p' ≡ some (o, p''))
              × Stole k l order p'' o
            → (o : Option ℕ) × (p'' : Pool) × (steal_loop (suc n) (j ∷ order) p ≡ some (o, p''))
              × Stole k l (j ∷ order) p'' o
        later (none, p'', ran', (empties, v'')) =
            (none, p'', loop-on n j order p p' ran ∙ ran', ((empty, empties), v''))
        later (some t, p'', ran', stole) = (some t, p'', loop-on n j order p p' ran ∙ ran', stole)

module _ {k : ℕ} {p : Pool} {l : ℕ → Tasks} (v : IsPool k p l) (i : ℕ) (lt : i < p.num_nodes)
    (th : Thieves p i) where
  abbrev Taking : Type 0
  Taking =
      (o : Option ℕ) × (p' : Pool) × (take_task p i ≡ some (o, p'))
      × Took k i l (p.node_pools i).order p' o

  take_own : (q : List ℕ) (t : ℕ) → (l i).queued ≡ q ++ t ∷ [] → Taking
  unfolding take_task
  take_own q t e =
      let node = v.node i lt in
      let (d, ran, held) =
        pop_lem k q t node.deque (subst (λ x. Items.Holds k x node.deque) e node.queued) in
      (
        some t,
        with_queue p i d,
        rw (node.task_queue, take_task) (rw (ran, take_task) refl),
        (
          i,
          q,
          inl (refl, e),
          taken_out v i lt d t q held
              (λ x. ap (occurs x) e ∙ occurs-append x q (t ∷ []) ∙ omega arith)
              (omega (arith, ap length e, length-append q (t ∷ []))),
        ),
      )

  -- With the own queue empty, the others are looked at, if there are any.
  take_eq :
      (l i).queued ≡ []
      → take_task p i ≡ (
          if ltb 1 p.num_nodes && not ((p.node_pools i).steal_order == 0)
          then steal_loop
              (p.num_nodes - 1)
              (p.node_pools i).order
              (with_queue p i (v.node i lt).deque)
          else some (none, with_queue p i (v.node i lt).deque))
  unfolding take_task
  take_eq e =
      let node = v.node i lt in
      let (popped, stolen) =
        empty_lem k node.deque (subst (λ x. Items.Holds k x node.deque) e node.queued) in
      ap (λ x. after_queue x) node.task_queue ∙ ap (λ x. after_pop x) popped
    where
      after_pop : Option (Option ℕ × Deque) → Option (Option ℕ × Pool)
      after_pop none = none
      after_pop (some (some t, d')) = some (some t, with_queue p i d')
      after_pop (some (none, d')) =
          if ltb 1 p.num_nodes && not ((p.node_pools i).steal_order == 0)
          then steal_loop (p.num_nodes - 1) (p.node_pools i).order (with_queue p i d')
          else some (none, with_queue p i d')

      after_queue : Option Deque → Option (Option ℕ × Pool)
      after_queue none = none
      after_queue (some d) = after_pop (Deque.pop d)

  abbrev looks : Bool
  looks = ltb 1 p.num_nodes && not ((p.node_pools i).steal_order == 0)

  abbrev emptied : Pool
  emptied = with_queue p i (v.node i lt).deque

  decided :
      (b : Bool)
      → looks ≡ b
      → (l i).queued ≡ []
      → take_task p i ≡ (
          if b
          then steal_loop (p.num_nodes - 1) (p.node_pools i).order emptied
          else some (none, emptied))
  decided b e empty =
      take_eq empty
      ∙ ap
          (λ t.
            if t
            then steal_loop (p.num_nodes - 1) (p.node_pools i).order emptied
            else some (none, emptied))
          e

  take_other : (l i).queued ≡ [] → Taking
  take_other e = elim (Bool-cases (ltb 1 p.num_nodes)) [
    | inl many ↦
        let (o, p', ran, stole) =
          steal_loop_lem (p.num_nodes - 1) (p.node_pools i).order emptied (untouched v i lt)
            th.within th.many in
        (o, p', decided true (ground (arith, th.made)) e ∙ ran, from_other p' o stole)
    | inr one ↦ (
      none,
      emptied,
      decided false (ground arith) e,
      (e, nobody (p.node_pools i).order (ground (arith, th.many)), untouched v i lt),
    )
  ]
    where
      from_other :
          (p' : Pool) (o : Option ℕ)
          → Stole k l (p.node_pools i).order p' o
          → Took k i l (p.node_pools i).order p' o
      from_other p' none (empties, v') = (e, empties, v')
      from_other p' (some t) (j, rest, ej, v') = (j, rest, inr (e, ej), v')

      nobody : (order : List ℕ) → length order ≡ 0 → Each (λ j. (l j).queued ≡ []) order
      nobody [] z = tt
      nobody (j ∷ order) z = absurd (omega arith)

  -- In a valid task pool, a worker's look for a task always returns: with the newest task of its
  -- node's queue, or, when that is empty, with the oldest of another node's, which passes to the
  -- running ones; or with nothing, and then the queues of its node and of all nodes of its steal
  -- order are empty. The pool is valid again and no other task moves.
  pub take_lem : Taking
  take_lem = elim (last_view (l i).queued) [ inl e ↦ take_other e | inr (q, t, e) ↦ take_own q t e ]

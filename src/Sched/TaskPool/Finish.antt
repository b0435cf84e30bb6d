-- ===== src/Sched/TaskPool/Finish.antt =====
-- A task whose function has returned goes back to the free ones of its own node.
use libnumakit.Prelude.{
  ℕ, suc, ◌+◌, ◌^◌, ◌<◌, ◌≡◌, refl, ap, ◌∙◌, Bool, true, some, List, [], ◌∷◌, ◌++◌, length,
  length-append, arith,
}
use libnumakit.Sync.Threads.{update}
use libnumakit.Structs.Ring.{Ring}
use libnumakit.Structs.Ring.Refine.{lets_through}
use libnumakit.Structs.Ring.Queue as Queue
use libnumakit.Sched.TaskPool.{NodePool, Pool, with_free, push_free, give_back}
use libnumakit.Sched.TaskPool.Conserve.{
  Tasks, IsPool, hit, occurs, occurs-append, IsPool-Beside, put_node_self, put_node-Beside,
}

-- The loop ends with its first push, as the free queue has room for all tasks of its node.
push_free_lem :
    (fuel k : ℕ) (rounds : List Bool) (q : List ℕ) (t : ℕ) (ring : Ring)
    → lets_through rounds ≡ true
    → Queue.Holds k q ring
    → length q < 2 ^ k
    → (ring' : Ring) × (push_free (suc fuel) rounds t ring ≡ some ring')
      × Queue.Holds k (q ++ t ∷ []) ring'
unfolding push_free
push_free_lem fuel k rounds q t ring lucky v room =
    let (ring', ran, held, place) = Queue.push_room rounds lucky q t v room in
    (ring', rw (ran, push_free) refl, held)

give_back_eq :
    (fuel : ℕ) (rounds : List Bool) (p : Pool) (t j : ℕ) {ring ring' : Ring}
    → (p.tasks t).home ≡ j
    → (p.node_pools j).free_queue ≡ some ring
    → push_free fuel rounds t ring ≡ some ring'
    → give_back fuel rounds p t ≡ some (with_free p j ring')
unfolding give_back
give_back_eq fuel rounds p t j {ring} {ring'} home free pushed =
    rw (ap (λ x. (p.node_pools x).free_queue) home ∙ free, give_back)
      (rw (pushed, give_back) (ap (λ x. some (with_free p x ring')) home))

module _ {k : ℕ} {p : Pool} {l : ℕ → Tasks} (fuel : ℕ) (rounds : List Bool) (v : IsPool k p l)
    (lucky : lets_through rounds ≡ true) (j : ℕ) (lt : j < p.num_nodes) (t : ℕ) (r r' : List ℕ)
    (runs : (l j).running ≡ r ++ t ∷ r') where
  abbrev pub given : ℕ → Tasks
  given = update l j (record (l j) { idle = (l j).idle ++ t ∷ []; running = r ++ r' })

  parts : (x : ℕ) → occurs x (l j).running ≡ hit x t + occurs x (r ++ r')
  parts x = omega (arith, ap (occurs x) runs, occurs-append x r (t ∷ r'), occurs-append x r r')

  itself : hit t t ≡ 1
  itself = ground arith

  sizes : length (l j).running ≡ suc (length (r ++ r'))
  sizes = omega (arith, ap length runs, length-append r (t ∷ r'), length-append r r')

  -- In a valid task pool, a task that a worker has run is given back at the first push, to the free
  -- tasks of the node that it came from, whichever worker ran it; the pool is valid again.
  pub give_back_lem : (p' : Pool) × (give_back (suc fuel) rounds p t ≡ some p') × IsPool k p' given
  give_back_lem =
      let node = v.node j lt in
      let (ring, pushed, held) =
        push_free_lem fuel k rounds (l j).idle t node.ring lucky node.idle
          (omega (arith, node.sizes, sizes)) in
      let m : NodePool = record (p.node_pools j) { free_queue = some ring } in
      (
        with_free p j ring,
        give_back_eq (suc fuel) rounds p t j
            (node.home t (omega (arith, node.shares t, parts t, itself))) node.free_queue pushed,
        IsPool-Beside j (record (l j) { idle = (l j).idle ++ t ∷ []; running = r ++ r' }) v
            (put_node-Beside p j m)
            (record {
              ring = ring;
              deque = node.deque;
              free_queue = ap (λ x. x.free_queue) (put_node_self p j m);
              task_queue = ap (λ x. x.task_queue) (put_node_self p j m) ∙ node.task_queue;
              idle = held;
              queued = node.queued;
              shares =
                  λ x. omega (arith, node.shares x, parts x, occurs-append x (l j).idle (t ∷ []));
              sizes = omega (arith, node.sizes, sizes, length-append (l j).idle (t ∷ []));
              home = node.home;
            }),
      )

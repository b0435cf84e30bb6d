-- ===== src/Sched/TaskPool/Submit.antt =====
-- A task is submitted: it passes from the free ones to the queue of its node.
use libnumakit.Prelude.{
  ℕ, suc, ◌^◌, ◌<◌, ◌≡◌, ◌⊎◌, inl, inr, refl, ap, sym, ◌∙◌, Bool, true, false, Option, none, some,
  List, [], ◌∷◌, ◌++◌, length, length-append, arith, ltb, Bool-cases,
}
use mathlib.Core.Path.{subst}
use libnumakit.Memory.Os.{Os, World}
use libnumakit.Sync.Threads.{update}
use libnumakit.Structs.Ring
use libnumakit.Structs.Ring.{Ring}
use libnumakit.Structs.Ring.Refine.{lets_through}
use libnumakit.Structs.Ring.Queue as Queue
use libnumakit.Structs.Deque.{Deque}
use libnumakit.Structs.Deque.Refine as Items
use libnumakit.Structs.Deque.Growth.{push-Holds}
use libnumakit.Sched.TaskPool.{
  Task, NodePool, Pool, target, with_free, with_queue, push_task, enqueue, submit_to_node,
}
use libnumakit.Sched.TaskPool.Conserve.{
  Tasks, IsNode, IsPool, occurs, occurs-append, Beside, IsPool-Beside, put_node_self,
  put_node-Beside, settled,
}

-- What a submission to node `i` comes to: one task passes from the free ones to the end of the queue
-- with the function and the argument, or there is no free one.
pub record Submitted (k i func arg : ℕ) (l : ℕ → Tasks) (t : ℕ) (rest : List ℕ) (p' : Pool)
    : Type 0 where
  pub was_free : (l i).idle ≡ t ∷ rest
  pub func_set : (p'.tasks t).func ≡ func
  pub arg_set : (p'.tasks t).arg ≡ arg
  pub kept :
      IsPool k p' (update l i (record (l i) { idle = rest; queued = (l i).queued ++ t ∷ [] }))

pub record Refused (k i : ℕ) (l : ℕ → Tasks) (p' : Pool) : Type 0 where
  pub none_free : (l i).idle ≡ []
  pub kept : IsPool k p' l

pub target_lt : (p : Pool) (node : Option ℕ) → 0 < p.num_nodes → target p node < p.num_nodes
unfolding target
target_lt p none h = h
target_lt p (some i) h = elim (Bool-cases (ltb i p.num_nodes)) [
  | inl e ↦ rw e (ground arith)
  | inr e ↦ rw e h
]

-- There is room for a task that was free: the loop ends with its first push.
push_task_lem :
    (fuel k : ℕ) (os : Os) (q : List ℕ) (t : ℕ) (d : Deque) (w : World)
    → Items.Holds k q d
    → length q < 2 ^ k
    → (d' : Deque) × (push_task (suc fuel) os t d w ≡ some (d', w)) × Items.Holds k (q ++ t ∷ []) d'
unfolding push_task
push_task_lem fuel k os q t d w v room =
    let (d', ran, held) = push-Holds os k q t d w v room in (d', rw (ran, push_task) refl, held)

enqueue_eq :
    (fuel : ℕ) (os : Os) (p : Pool) (i t func arg : ℕ) (w : World) {d d' : Deque}
    → (p.node_pools i).task_queue ≡ some d
    → push_task fuel os t d w ≡ some (d', w)
    → enqueue fuel os p i t func arg w
      ≡ some (
        true,
        record (with_queue p i d') {
          tasks = update p.tasks t (record (p.tasks t) { func = func; arg = arg });
        },
        w,
      )
unfolding enqueue
enqueue_eq fuel os p i t func arg w queue pushed = rw (queue, enqueue) (rw (pushed, enqueue) refl)

submit_eq :
    (fuel : ℕ) (rounds : List Bool) (os : Os) (p : Pool) (node : Option ℕ) (func arg : ℕ)
    (w : World) {ring ring' : Ring} {t : ℕ}
    → (p.node_pools (target p node)).free_queue ≡ some ring
    → Ring.pop rounds ring ≡ some (some t, ring')
    → submit_to_node fuel rounds os p node func arg w
      ≡ enqueue fuel os (with_free p (target p node) ring') (target p node) t func arg w
unfolding submit_to_node
submit_eq fuel rounds os p wanted func arg w free popped =
    rw (free, submit_to_node) (rw (popped, submit_to_node) refl)

module _ {k : ℕ} {p : Pool} {l : ℕ → Tasks} (fuel : ℕ) (rounds : List Bool) (os : Os) (func arg : ℕ)
    (w : World) (v : IsPool k p l) (lucky : lets_through rounds ≡ true) (node : Option ℕ) where
  abbrev i : ℕ
  i = target p node

  n : IsNode k p i (l i)
  n = v.node i (target_lt p node v.some_node)

  refused :
      (ring : Ring) → (l i).idle ≡ [] → Queue.Holds k [] ring → Refused k i l (with_free p i ring)
  refused ring e held = record {
    none_free = e;
    kept =
        let m : NodePool = record (p.node_pools i) { free_queue = some ring } in
        settled i (
          IsPool-Beside i (l i) v (put_node-Beside p i m) (record {
            ring = ring;
            deque = n.deque;
            free_queue = ap (λ x. x.free_queue) (put_node_self p i m);
            task_queue = ap (λ x. x.task_queue) (put_node_self p i m) ∙ n.task_queue;
            idle = subst (λ q. Queue.Holds k q ring) (sym e) held;
            queued = n.queued;
            shares = n.shares;
            sizes = n.sizes;
            home = n.home;
          }));
  }

  -- The pool behind a submission.
  abbrev after : Ring → ℕ → Deque → Pool
  after ring t d =
      let filled : Task = record (p.tasks t) { func = func; arg = arg } in
      record (with_queue (with_free p i ring) i d) { tasks = update p.tasks t filled }

  after-Beside : (ring : Ring) (t : ℕ) (d : Deque) → Beside p (after ring t d) i
  after-Beside ring t d = record {
    num_nodes = refl;
    others = λ j ne. ground arith;
    homes = λ x. ground arith;
  }

  after_node :
      (ring : Ring) (t : ℕ) (d : Deque)
      → (after ring t d).node_pools i
        ≡ record (p.node_pools i) { free_queue = some ring; task_queue = some d }
  after_node ring t d = ground arith

  submitted :
      (ring : Ring) (t : ℕ) (rest : List ℕ) (d : Deque)
      → (l i).idle ≡ t ∷ rest
      → Queue.Holds k rest ring
      → Items.Holds k ((l i).queued ++ t ∷ []) d
      → Submitted k i func arg l t rest (after ring t d)
  submitted ring t rest d e held held' =
      let e' = after_node ring t d in
      record {
        was_free = e;
        func_set = ground arith;
        arg_set = ground arith;
        kept =
            IsPool-Beside i (record (l i) { idle = rest; queued = (l i).queued ++ t ∷ [] }) v
              (after-Beside ring t d)
              (record {
                ring = ring;
                deque = d;
                free_queue = ap (λ x. x.free_queue) e';
                task_queue = ap (λ x. x.task_queue) e';
                idle = held;
                queued = held';
                shares = λ x.
                    omega
                      (arith, n.shares x, ap (occurs x) e, occurs-append x (l i).queued (t ∷ []));
                sizes = omega (arith, n.sizes, ap length e, length-append (l i).queued (t ∷ []));
                home = λ x h. (after-Beside ring t d).homes x ∙ n.home x h;
              });
      }

  -- In a valid task pool of which every node has `2 ^ k` tasks, each free, queued or with a worker,
  -- a submission to any target always returns, at the first push: with EAGAIN when the node has no
  -- free task, or with one free task of it at the end of its queue that has the function and the
  -- argument; the pool is valid again and no other task moves.
  pub submit_lem :
      (ok : Bool) × (p' : Pool) × (submit_to_node (suc fuel) rounds os p node func arg w
        ≡ some (ok, p', w))
      × ((ok ≡ false) × Refused k i l p'
          ⊎ (ok ≡ true) × ((t : ℕ) × (rest : List ℕ) × Submitted k i func arg l t rest p'))
  unfolding submit_to_node
  submit_lem = by_idle (l i).idle refl
    where
      by_idle :
          (idle : List ℕ)
          → (l i).idle ≡ idle
          → (ok : Bool) × (p' : Pool) × (submit_to_node (suc fuel) rounds os p node func arg w
              ≡ some (ok, p', w))
            × ((ok ≡ false) × Refused k i l p'
                ⊎ (ok ≡ true) × ((t : ℕ) × (rest : List ℕ) × Submitted k i func arg l t rest p'))
      by_idle [] e =
          let (ring, ran, held, place) =
            Queue.pop_empty rounds lucky (subst (λ q. Queue.Holds k q n.ring) e n.idle) in
          (
            false,
            with_free p i ring,
            rw (n.free_queue, submit_to_node) (rw (ran, submit_to_node) refl),
            inl (refl, refused ring e held),
          )
      by_idle (t ∷ rest) e =
          let (ring, ran, held, place) =
            Queue.pop_cons rounds lucky t rest (subst (λ q. Queue.Holds k q n.ring) e n.idle) in
          let (d, pushed, held') =
            push_task_lem fuel k os (l i).queued t n.deque w n.queued
              (omega (arith, n.sizes, ap length e)) in
          let queue : ((with_free p i ring).node_pools i).task_queue ≡ some n.deque =
            ap (λ x. x.task_queue)
              (put_node_self p i (record (p.node_pools i) { free_queue = some ring }))
            ∙ n.task_queue in
          (
            true,
            after ring t d,
            submit_eq (suc fuel) rounds os p node func arg w n.free_queue ran
                ∙ enqueue_eq (suc fuel) os (with_free p i ring) i t func arg w queue pushed,
            inr (refl, (t, rest, submitted ring t rest d e held held')),
          )

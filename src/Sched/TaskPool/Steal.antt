-- ===== src/Sched/TaskPool/Steal.antt =====
-- A task that leaves the queue of a node: what becomes of the pool, and the look into one other queue.
use libnumakit.Prelude.{
  ℕ, suc, ◌+◌, ◌-◌, ◌<◌, ◌≡◌, ◌≢◌, ◌⊎◌, inl, inr, refl, ap, sym, ◌∙◌, Option, none, some, List, [],
  ◌∷◌, ◌++◌, length, arith,
}
use mathlib.Core.Path.{subst}
use libnumakit.Sync.Threads.{update}
use libnumakit.Structs.Ring.Queue as Queue
use libnumakit.Structs.Deque.{Deque}
use libnumakit.Structs.Deque.Refine as Items
use libnumakit.Structs.Deque.Refine.{steal_lem}
use libnumakit.Structs.Deque.Owner.{empty_lem}
use libnumakit.Sched.TaskPool.{NodePool, Pool, with_queue, steal_from}
use libnumakit.Sched.TaskPool.Conserve.{
  Tasks, IsPool, hit, occurs, IsPool-Beside, put_node_self, put_node-Beside, settled,
}

abbrev pub Each : (ℕ → Type 0) → List ℕ → Type 0
Each P [] = Unit
Each P (x ∷ l) = P x × Each P l

-- The lists behind the take of task `t` from node `j`, with `rest` left in its queue.
abbrev pub taken : (ℕ → Tasks) → ℕ → ℕ → List ℕ → ℕ → Tasks
taken l j t rest = update l j (record (l j) { queued = rest; running = t ∷ (l j).running })

-- The steal order of node `i` names nodes of the machine, one fewer than there are.
pub record Thieves (p : Pool) (i : ℕ) : Type 0 where
  pub within : Each (λ j. j < p.num_nodes) (p.node_pools i).order
  pub many : length (p.node_pools i).order ≡ p.num_nodes - 1
  pub made : 1 < p.num_nodes → (p.node_pools i).steal_order ≢ 0

-- What a worker of node `i` comes back with: a task that passes to the running ones, or nothing, when
-- the queues are empty.
abbrev pub Took : ℕ → ℕ → (ℕ → Tasks) → List ℕ → Pool → Option ℕ → Type 0
Took k i l order p' none = ((l i).queued ≡ []) × Each (λ j. (l j).queued ≡ []) order × IsPool k p' l
Took k i l order p' (some t) =
    (j : ℕ) × (rest : List ℕ) × (((j ≡ i) × ((l i).queued ≡ rest ++ t ∷ []))
      ⊎ (((l i).queued ≡ []) × ((l j).queued ≡ t ∷ rest)))
    × IsPool k p' (taken l j t rest)

-- The same for a loop over the others.
abbrev pub Stole : ℕ → (ℕ → Tasks) → List ℕ → Pool → Option ℕ → Type 0
Stole k l order p' none = Each (λ j. (l j).queued ≡ []) order × IsPool k p' l
Stole k l order p' (some t) =
    (j : ℕ) × (rest : List ℕ) × ((l j).queued ≡ t ∷ rest) × IsPool k p' (taken l j t rest)

pub last_view : (q : List ℕ) → (q ≡ []) ⊎ ((r : List ℕ) × (x : ℕ) × (q ≡ r ++ x ∷ []))
last_view [] = inl refl
last_view (a ∷ q) = elim (last_view q) [
  | inl e ↦ inr ([], a, ap (λ l. a ∷ l) e)
  | inr (r, x, e) ↦ inr (a ∷ r, x, ap (λ l. a ∷ l) e)
]

module _ {k : ℕ} {p : Pool} {l : ℕ → Tasks} (v : IsPool k p l) (i : ℕ) (lt : i < p.num_nodes) where
  -- The queue of a node changes, and perhaps its running tasks.
  pub queue_moved :
      (d : Deque) (m : Tasks)
      → m.idle ≡ (l i).idle
      → m.all ≡ (l i).all
      → Items.Holds k m.queued d
      → ((x : ℕ)
          → occurs x m.queued + occurs x m.running ≡ occurs x (l i).queued + occurs x (l i).running)
      → length m.queued + length m.running ≡ length (l i).queued + length (l i).running
      → IsPool k (with_queue p i d) (update l i m)
  queue_moved d m ei ea held shares sizes =
      let node_pool : NodePool = record (p.node_pools i) { task_queue = some d } in
      let node = v.node i lt in
      IsPool-Beside i m v (put_node-Beside p i node_pool) (record {
        ring = node.ring;
        deque = d;
        free_queue = ap (λ x. x.free_queue) (put_node_self p i node_pool) ∙ node.free_queue;
        task_queue = ap (λ x. x.task_queue) (put_node_self p i node_pool);
        idle = subst (λ q. Queue.Holds k q node.ring) (sym ei) node.idle;
        queued = held;
        shares = λ x. omega (arith, node.shares x, shares x, ap (occurs x) ei, ap (occurs x) ea);
        sizes = omega (arith, node.sizes, sizes, ap length ei);
        home = λ x h. node.home x (omega (arith, h, ap (occurs x) ea));
      })

  -- A task that is taken out of the queue.
  pub taken_out :
      (d : Deque) (t : ℕ) (rest : List ℕ)
      → Items.Holds k rest d
      → ((x : ℕ) → occurs x (l i).queued ≡ hit x t + occurs x rest)
      → length (l i).queued ≡ suc (length rest)
      → IsPool k (with_queue p i d) (taken l i t rest)
  taken_out d t rest held shares sizes =
      queue_moved d (record (l i) { queued = rest; running = t ∷ (l i).running }) refl refl held
        (λ x. omega (arith, shares x)) (omega (arith, sizes))

  -- An empty queue stays as it is.
  pub untouched : IsPool k (with_queue p i (v.node i lt).deque) l
  untouched =
      settled i
        (queue_moved (v.node i lt).deque (l i) refl refl (v.node i lt).queued (λ x. refl) refl)

  pub steal_from_lem :
      (q : List ℕ)
      → (l i).queued ≡ q
      → (o : Option ℕ) × (p' : Pool) × (steal_from p i ≡ some (o, p'))
        × Stole k l (i ∷ []) p' o
        × (p'.num_nodes ≡ p.num_nodes)
  unfolding steal_from
  steal_from_lem [] e =
      let node = v.node i lt in
      let (popped, stolen) =
        empty_lem k node.deque (subst (λ x. Items.Holds k x node.deque) e node.queued) in
      (
        none,
        with_queue p i node.deque,
        rw (node.task_queue, steal_from) (rw (stolen, steal_from) refl),
        ((e, tt), untouched),
        refl,
      )
  steal_from_lem (t ∷ rest) e =
      let node = v.node i lt in
      let (d, ran, held) =
        steal_lem k t rest node.deque (subst (λ x. Items.Holds k x node.deque) e node.queued) in
      (
        some t,
        with_queue p i d,
        rw (node.task_queue, steal_from) (rw (ran, steal_from) refl),
        (i, rest, e, taken_out d t rest held (λ x. ap (occurs x) e) (ap length e)),
        refl,
      )

-- ===== src/Sched/TaskPool/Conserve.antt =====
-- Every task of a node is free, in the node's queue or with a worker.
use libnumakit.Prelude.{
  ℕ, ◌+◌, ◌^◌, ◌<◌, ◌≡◌, ◌≢◌, refl, ap, sym, ◌∙◌, some, List, [], ◌∷◌, ◌++◌, length, arith,
  ℕ_discrete, if◌then◌else◌, ◌==◌,
}
use mathlib.Core.Path.{subst}
use libnumakit.Sync.Threads.{update}
use libnumakit.Structs.Ring.{Ring}
use libnumakit.Structs.Ring.Queue as Queue
use libnumakit.Structs.Deque.{Deque}
use libnumakit.Structs.Deque.Refine as Items
use libnumakit.Sched.TaskPool.{NodePool, Pool}

-- How often an address stands in a list.
abbrev pub hit : ℕ → ℕ → ℕ
hit x y = if x == y then 1 else 0

abbrev pub occurs : ℕ → List ℕ → ℕ
occurs x [] = 0
occurs x (y ∷ l) = hit x y + occurs x l

pub occurs-append : (x : ℕ) (l l' : List ℕ) → occurs x (l ++ l') ≡ occurs x l + occurs x l'
occurs-append x [] l' = omega arith
occurs-append x (y ∷ l) l' = omega (arith, occurs-append x l l')

-- The tasks of a node by where they are.
pub record Tasks : Type 0 where
  pub all : List ℕ
  pub idle : List ℕ
  pub queued : List ℕ
  pub running : List ℕ

pub record IsNode (k : ℕ) (p : Pool) (i : ℕ) (l : Tasks) : Type 0 where
  pub ring : Ring
  pub deque : Deque
  pub free_queue : (p.node_pools i).free_queue ≡ some ring
  pub task_queue : (p.node_pools i).task_queue ≡ some deque
  pub idle : Queue.Holds k l.idle ring
  pub queued : Items.Holds k l.queued deque
  pub shares : (x : ℕ) → occurs x l.idle + occurs x l.queued + occurs x l.running ≡ occurs x l.all
  pub sizes : length l.idle + length l.queued + length l.running ≡ 2 ^ k
  pub home : (x : ℕ) → 0 < occurs x l.all → (p.tasks x).home ≡ i

pub record IsPool (k : ℕ) (p : Pool) (l : ℕ → Tasks) : Type 0 where
  pub some_node : 0 < p.num_nodes
  pub node : (i : ℕ) → i < p.num_nodes → IsNode k p i (l i)

-- The other nodes of a pool stay as they are.
pub record Beside (p p' : Pool) (i : ℕ) : Type 0 where
  pub num_nodes : p'.num_nodes ≡ p.num_nodes
  pub others : (j : ℕ) → i ≢ j → p'.node_pools j ≡ p.node_pools j
  pub homes : (x : ℕ) → (p'.tasks x).home ≡ (p.tasks x).home

IsNode-Beside :
    {k : ℕ} {p p' : Pool} {i : ℕ} (j : ℕ) (l : Tasks)
    → Beside p p' i
    → i ≢ j
    → IsNode k p j l
    → IsNode k p' j l
IsNode-Beside j l b ne v = record {
  ring = v.ring;
  deque = v.deque;
  free_queue = ap (λ n. n.free_queue) (b.others j ne) ∙ v.free_queue;
  task_queue = ap (λ n. n.task_queue) (b.others j ne) ∙ v.task_queue;
  idle = v.idle;
  queued = v.queued;
  shares = v.shares;
  sizes = v.sizes;
  home = λ x h. b.homes x ∙ v.home x h;
}

pub IsPool-Beside :
    {k : ℕ} {p p' : Pool} {l : ℕ → Tasks} (i : ℕ) (m : Tasks)
    → IsPool k p l
    → Beside p p' i
    → IsNode k p' i m
    → IsPool k p' (update l i m)
IsPool-Beside {k} {p} {p'} {l} i m v b n = record {
  some_node = omega (arith, b.num_nodes, v.some_node);
  node = λ j lt. elim (ℕ_discrete i j) [
    | yes e ↦ subst (IsNode k p' j) (sym (here j e)) (subst (λ x. IsNode k p' x m) e n)
    | no ne ↦
        subst (IsNode k p' j) (sym (there j ne))
          (IsNode-Beside j (l j) b ne (v.node j (omega (arith, b.num_nodes, lt))))
  ];
}
  where
    here : (j : ℕ) → i ≡ j → update l i m j ≡ m
    here j e = ground arith

    there : (j : ℕ) → i ≢ j → update l i m j ≡ l j
    there j ne = ground arith

-- A change of the record of one node.
abbrev pub put_node : Pool → ℕ → NodePool → Pool
put_node p i n = record p { node_pools = update p.node_pools i n }

pub put_node_self : (p : Pool) (i : ℕ) (n : NodePool) → (put_node p i n).node_pools i ≡ n
put_node_self p i n = ground arith

pub put_node-Beside : (p : Pool) (i : ℕ) (n : NodePool) → Beside p (put_node p i n) i
put_node-Beside p i n = record {
  num_nodes = refl;
  others = λ j ne. ground arith;
  homes = λ x. refl;
}

-- A node that keeps its lists.
pub settled :
    {k : ℕ} {p : Pool} {l : ℕ → Tasks} (i : ℕ) → IsPool k p (update l i (l i)) → IsPool k p l
settled {k} {p} {l} i v = record {
  some_node = v.some_node;
  node = λ j lt. subst (IsNode k p j) (same j) (v.node j lt);
}
  where
    same : (j : ℕ) → update l i (l i) j ≡ l j
    same j = elim (ℕ_discrete i j) [ yes e ↦ ground arith | no ne ↦ ground arith ]

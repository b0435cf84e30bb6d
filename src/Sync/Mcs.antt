-- ===== src/Sync/Mcs.antt =====
-- src/sync/mcs_lock.c: threads that take the MCS lock, one access to shared memory at a time. A
-- thread brings one node to the lock, which has the thread's number for its address.
pub mod Chain
pub mod Front
pub mod Moves
pub mod Queue
pub mod Progress
mod Tests
use libnumakit.Prelude.{ℕ, ◌≡◌, ◌≢◌, Bool, true, false, Option, none, some}
use libnumakit.Sync.Threads.{update}

-- Where a thread stands: outside; in `nkit_mcs_lock` before the exchange, before the write to the
-- previous node, in the loop; between lock and unlock; in `nkit_mcs_unlock` before the exchange, in
-- the loop, before the write to the next node.
pub data Pc : Type 0 where
  idle : Pc
  swap : Pc
  link : ℕ → Pc
  spin : Pc
  inside : Pc
  release : Pc
  wait : Pc
  grant : Pc

-- `nkit_mcs_node_t`, with the place of its thread.
pub record Node : Type 0 where
  pub next : Option ℕ
  pub locked : Bool
  pub pc : Pc

-- `nkit_mcs_lock_t` and the nodes.
pub record State : Type 0 where
  pub tail : Option ℕ
  pub node : ℕ → Node

-- nkit_mcs_init; what a node holds before it is used does not matter.
abbrev pub start : State
start = record { tail = none; node = λ _. record { next = none; locked = false; pc = idle } }

-- The node that `nkit_mcs_lock` sets up before anyone else can see it.
abbrev pub fresh : Node
fresh = record { next = none; locked = true; pc = swap }

abbrev pub at : Node → Pc → Node
at m p = record m { pc = p }

-- What the exchange of the tail leads to.
unfoldable pub enqueued : Option ℕ → Pc
enqueued none = inside
enqueued (some prev) = link prev

-- prev->next = node
unfoldable pub link_to : (ℕ → Node) → ℕ → ℕ → ℕ → Node
link_to node prev i =
    let linked = update node prev (record (node prev) { next = some i }) in
    update linked i (at (linked i) spin)

-- The look at node->next that `nkit_mcs_unlock` begins with.
unfoldable pub look_next : Option ℕ → Pc
look_next none = release
look_next (some _) = grant

-- node->next->locked = 0
unfoldable pub unlock_next : (ℕ → Node) → ℕ → ℕ → ℕ → Node
unlock_next node i s =
    let gone = update node i (at (node i) idle) in
    update gone s (record (gone s) { locked = false })

-- One access of one thread; `poll` and `poll_next` are rounds of a loop that do not end it.
pub data Step (s : State) : State → Type 0 where
  prepare : (i : ℕ) → (s.node i).pc ≡ idle → Step s (record s { node = update s.node i fresh })
  exchange :
      (i : ℕ)
      → (s.node i).pc ≡ swap
      → Step s (record { tail = some i; node = update s.node i (at (s.node i) (enqueued s.tail)) })
  join :
      (i prev : ℕ) → (s.node i).pc ≡ link prev → Step s (record s { node = link_to s.node prev i })
  poll : (i : ℕ) → (s.node i).pc ≡ spin → (s.node i).locked ≡ true → Step s s
  enter :
      (i : ℕ)
      → (s.node i).pc ≡ spin
      → (s.node i).locked ≡ false
      → Step s (record s { node = update s.node i (at (s.node i) inside) })
  leave :
      (i : ℕ)
      → (s.node i).pc ≡ inside
      → Step s (record s { node = update s.node i (at (s.node i) (look_next (s.node i).next)) })
  free :
      (i : ℕ)
      → (s.node i).pc ≡ release
      → s.tail ≡ some i
      → Step s (record { tail = none; node = update s.node i (at (s.node i) idle) })
  fail :
      (i : ℕ)
      → (s.node i).pc ≡ release
      → s.tail ≢ some i
      → Step s (record s { node = update s.node i (at (s.node i) wait) })
  poll_next : (i : ℕ) → (s.node i).pc ≡ wait → (s.node i).next ≡ none → Step s s
  seen :
      (i j : ℕ)
      → (s.node i).pc ≡ wait
      → (s.node i).next ≡ some j
      → Step s (record s { node = update s.node i (at (s.node i) grant) })
  notify :
      (i j : ℕ)
      → (s.node i).pc ≡ grant
      → (s.node i).next ≡ some j
      → Step s (record s { node = unlock_next s.node i j })

pub data Reach : State → Type 0 where
  begin : Reach start
  next : {s t : State} → Reach s → Step s t → Reach t

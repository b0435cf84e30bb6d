-- ===== src/Sync/Ticket.antt =====
-- src/sync/ticket_lock.c: `n` threads that take the ticket lock, one atomic access at a time.
pub mod Line
pub mod Queue
use libnumakit.Prelude.{ℕ, ◌+◌, ◌-◌, ◌%◌, ◌^◌, ◌<◌, ◌≡◌, ◌≢◌}
use libnumakit.Sync.Threads.{update}

-- `nkit_ticket_lock_t`: two counters of type uint32_t.
pub record Lock : Type 0 where
  pub ticket : ℕ
  pub serving : ℕ

-- Where a thread stands: outside, in the loop of `nkit_ticket_lock` with its ticket, or between the
-- return of `nkit_ticket_lock` and the call of `nkit_ticket_unlock`.
pub data Pc : Type 0 where
  idle : Pc
  spin : ℕ → Pc
  inside : Pc

abbrev pub init : Lock
init = record { ticket = 0; serving = 0 }

-- atomic_fetch_add on `ticket`: the lock after it; the thread keeps the old value.
unfoldable pub take_ticket : Lock → Lock
take_ticket l = record l { ticket = (l.ticket + 1) % 2 ^ 32 }

pub unlock : Lock → Lock
unlock l = record l { serving = (l.serving + 1) % 2 ^ 32 }

-- The number of pauses before the next look at `serving`.
pub distance : ℕ → ℕ → ℕ
distance my_ticket current = (my_ticket + 2 ^ 32 - current) % 2 ^ 32

pub record State : Type 0 where
  pub lock : Lock
  pub pc : ℕ → Pc

abbrev pub start : State
start = record { lock = init; pc = λ _. idle }

-- One access of one thread; `poll` is a round of the loop that does not end it.
pub data Step (n : ℕ) (s : State) : State → Type 0 where
  take :
      (i : ℕ)
      → i < n
      → s.pc i ≡ idle
      → Step n s (record { lock = take_ticket s.lock; pc = update s.pc i (spin s.lock.ticket) })
  poll : (i my_ticket : ℕ) → s.pc i ≡ spin my_ticket → s.lock.serving ≢ my_ticket → Step n s s
  enter :
      (i my_ticket : ℕ)
      → s.pc i ≡ spin my_ticket
      → s.lock.serving ≡ my_ticket
      → Step n s (record s { pc = update s.pc i inside })
  leave :
      (i : ℕ)
      → s.pc i ≡ inside
      → Step n s (record { lock = unlock s.lock; pc = update s.pc i idle })

pub data Reach (n : ℕ) : State → Type 0 where
  begin : Reach n start
  next : {s t : State} → Reach n s → Step n s t → Reach n t

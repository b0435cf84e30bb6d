-- ===== src/Sync/Mcs/Tests.antt =====
-- Thread 0 takes the MCS lock, thread 1 queues up behind it, and thread 0 leaves.
use libnumakit.Prelude.{ℕ, ◌≡◌, ◌≢◌, inr, refl, false, some, List, []}
use libnumakit.Sync.Threads.{update}
use libnumakit.Sync.Mcs.{
  idle, swap, wait, grant, State, start, fresh, at, enqueued, link_to, look_next, unlock_next,
  prepare, exchange, join, leave, fail, seen, Reach, begin, next,
}
use libnumakit.Sync.Mcs.Queue.{Advance, start-Queued, Step-Advances, one_owner}
use libnumakit.Sync.Mcs.Chain.{Queued}
use libnumakit.Sync.Mcs.Progress.{Moves, not_stuck, live_target}

abbrev put : State → ℕ → State
put s i = record s { node = update s.node i fresh }

abbrev queue_up : State → ℕ → State
queue_up s i = record { tail = some i; node = update s.node i (at (s.node i) (enqueued s.tail)) }

abbrev both : State
both = queue_up (put (queue_up (put start 0) 0) 1) 1

both-Reach : Reach both
unfolding enqueued
both-Reach =
    next (next (next (next begin (prepare 0 refl)) (exchange 0 refl)) (prepare 1 refl))
      (exchange 1 refl)

-- The unlock of thread 0 sees no successor yet, cannot free the lock, and waits for the link.
abbrev move : State → ℕ → State
move s i = record s { node = update s.node i (at (s.node i) (look_next (s.node i).next)) }

abbrev leaving : State
leaving = move both 0

abbrev waiting : State
waiting = record leaving { node = update leaving.node 0 (at (leaving.node 0) wait) }

abbrev linked : State
linked = record waiting { node = link_to waiting.node 0 1 }

abbrev granting : State
granting = record linked { node = update linked.node 0 (at (linked.node 0) grant) }

waiting-Reach : Reach waiting
unfolding enqueued look_next
waiting-Reach = next (next both-Reach (leave 0 refl)) (fail 0 refl (λ e. cc e))

granting-Reach : Reach granting
unfolding enqueued look_next link_to
granting-Reach = next (next waiting-Reach (join 1 0 refl)) (seen 0 1 refl refl)

handed_over : (unlock_next granting.node 0 1 1).locked ≡ false
unfolding enqueued look_next link_to unlock_next
handed_over = refl

one_owner_example : ◌≡◌ {A = ℕ} 0 0
unfolding enqueued
one_owner_example = one_owner both-Reach 0 0 tt tt

Step-Advances_example : (q' : List ℕ) × Queued (put start 0) q' × Advance [] q'
Step-Advances_example = Step-Advances start-Queued (prepare 0 refl)

not_stuck_example : (j : ℕ) × Moves (waiting.node j).pc (waiting.node j)
unfolding enqueued look_next
not_stuck_example = not_stuck waiting-Reach 0 (λ e. cc e)

live_target_example : ((granting.node 1).pc ≢ idle) × ((granting.node 1).pc ≢ swap)
unfolding enqueued look_next link_to
live_target_example = live_target granting-Reach 0 1 (inr (refl, refl))

-- ===== src/Sync/Tests.antt =====
-- The theorems of the locks and of the counter at concrete runs.
use libnumakit.Prelude.{
  ℕ, ◌≡◌, ◌⊎◌, inr, refl, true, none, some, List, [], ◌∷◌, arith, if◌then◌else◌, ◌==◌,
}
use libnumakit.Memory.Os.{Os}
use libnumakit.Sync.Threads
use libnumakit.Sync.Ticket
use libnumakit.Sync.Ticket.{Lock}
use libnumakit.Sync.Ticket.Queue.{mutual_exclusion, no_deadlock}
use libnumakit.Sync.Rws
use libnumakit.Sync.Rws.Exclusion.{write_exclusion}
use libnumakit.Sync.PCounter.{PCounter, read}
use libnumakit.Sync.PCounter.Sum.{
  Op, adding, counting, counting_down, resetting, run, count, read-run,
}

-- Thread 1 takes a ticket and enters, then thread 0 takes one.
abbrev one_waits : Ticket.State
one_waits = record {
  lock = record { ticket = 1; serving = 0 };
  pc = Threads.update (λ _. Ticket.idle) 1 (Ticket.spin 0);
}

one_waits-Reach : Ticket.Reach 2 one_waits
unfolding Ticket.take_ticket
one_waits-Reach = Ticket.next Ticket.begin (Ticket.take 1 (omega arith) refl)

abbrev one_inside : Ticket.State
one_inside = record one_waits { pc = Threads.update one_waits.pc 1 Ticket.inside }

one_inside-Reach : Ticket.Reach 2 one_inside
one_inside-Reach = Ticket.next one_waits-Reach (Ticket.enter 1 0 refl refl)

abbrev two_there : Ticket.State
two_there = record {
  lock = record { ticket = 2; serving = 0 };
  pc = Threads.update one_inside.pc 0 (Ticket.spin 1);
}

two_there-Reach : Ticket.Reach 2 two_there
unfolding Ticket.take_ticket
two_there-Reach = Ticket.next one_inside-Reach (Ticket.take 0 (omega arith) refl)

mutual_exclusion_example : ◌≡◌ {A = ℕ} 1 1
mutual_exclusion_example = mutual_exclusion (omega arith) two_there-Reach 1 1 refl refl

no_deadlock_example :
    (j : ℕ) × ((two_there.pc j ≡ Ticket.inside)
      ⊎ (two_there.pc j ≡ Ticket.spin two_there.lock.serving))
no_deadlock_example = no_deadlock (omega arith) two_there-Reach 0 1 refl

-- Thread 0 reads and leaves; thread 1 gets the lock to write.
abbrev quiet : Rws.State
quiet = Rws.start

abbrev wanted : Rws.State
wanted = record { word = 2; pc = Threads.update (λ _. Rws.idle) 1 Rws.write_load }

wanted-Reach : Rws.Reach 2 wanted
unfolding Rws.announce
wanted-Reach = Rws.next Rws.begin (Rws.call_write 1 (omega arith) refl)

abbrev looked : Rws.State
looked = record wanted { pc = Threads.update wanted.pc 1 (Rws.write_swap 2) }

looked-Reach : Rws.Reach 2 looked
unfolding Rws.write_look
looked-Reach = Rws.next wanted-Reach (Rws.look_write 1 (omega arith) refl)

abbrev written : Rws.State
written = record { word = 1; pc = Threads.update looked.pc 1 Rws.writing }

written-Reach : Rws.Reach 2 written
unfolding Rws.write_locked
written-Reach = Rws.next looked-Reach (Rws.win_write 1 2 (omega arith) refl refl)

write_exclusion_example : ◌≡◌ {A = ℕ} 1 1
write_exclusion_example = write_exclusion (omega arith) written-Reach 1 1 refl (inr refl)

-- A counter on two nodes.
abbrev two_nodes : PCounter
two_nodes = record {
  addr = 64;
  array = 128;
  slots = 256 ∷ 320 ∷ [];
  values = 5 ∷ 18446744073709551615 ∷ [];
  num_nodes = 2;
}

abbrev some_ops : List Op
some_ops =
    adding (some 1) 7 ∷ counting (some 9) ∷ counting_down none ∷ resetting ∷ counting (some 1) ∷ []

read-run_example : read (run some_ops two_nodes) ≡ count some_ops (read two_nodes)
read-run_example = read-run some_ops two_nodes (record { nonempty = omega arith; one_each = refl })

abbrev plain : Os
plain = record {
  malloc = λ _ _. 64;
  mmap = λ _ _ _. 4096;
  numa_alloc = λ w _ i. if i == 1 then 0 else 8192;
  mbind = λ _ _ _. true;
  madvise = λ _ _. true;
  page_size = 4096;
  numa_available = true;
}

-- ===== src/Sched/Balancer.antt =====
-- src/sched/balancer.c: one thread profiles itself with two hardware counters.
pub mod Descriptors
use libnumakit.Prelude.{
  ℕ, ◌+◌, ◌-◌, zero, suc, Bool, true, false, ◌||◌, Option, none, some, List, [], ◌∷◌, ltb, ◌==◌,
  if◌then◌else◌,
}
use libnumakit.Sched.Context.{Context}
use libnumakit.Sync.Threads.{member, erase}

pub data Event : Type 0 where
  cache_misses instructions : Event

-- What perf_event_open and read answer, and the comparison of the ratio of two counts with the
-- threshold, which the code does in floating point.
pub record Perf : Type 0 where
  pub open_counter : Event → List ℕ → Option ℕ
  pub read_counter : ℕ → Option ℕ
  pub exceeds : ℕ → ℕ → Bool

-- The two thread-local variables (`none` for -1), the descriptors that are open in the process, and
-- how often a descriptor was closed that was not open.
pub record Profile : Type 0 where
  pub miss : Option ℕ
  pub instr : Option ℕ
  pub open_fds : List ℕ
  pub bad_closes : ℕ

pub close : ℕ → Profile → Profile
close fd p =
    if member fd p.open_fds
    then record p { open_fds = erase fd p.open_fds }
    else record p { bad_closes = suc p.bad_closes }

unfoldable pub close_if : Option ℕ → Profile → Profile
close_if none p = p
close_if (some fd) p = close fd p

-- `true` for 0 and `false` for -1.
unfoldable pub start : Perf → Profile → Bool × Profile
start perf p =
    let p1 = close_if p.instr (close_if p.miss p) in
    elim (perf.open_counter cache_misses p1.open_fds) [
      | none ↦ (false, record p1 { miss = none })
      | some m ↦ elim (perf.open_counter instructions (m ∷ p1.open_fds)) [
        | none ↦ (
          false,
          record (close m (record p1 { open_fds = m ∷ p1.open_fds })) { miss = none; instr = none },
        )
        | some i ↦
            (true, record p1 { miss = some m; instr = some i; open_fds = i ∷ m ∷ p1.open_fds })
      ]
    ]

-- `nkit_advice_e`
pub data Advice : Type 0 where
  stay migrate error : Advice

-- The verdict on the two counts.
pub analyze : Perf → ℕ → ℕ → Advice
analyze perf misses instrs =
    if ltb instrs 1000 then stay else if perf.exceeds misses instrs then migrate else stay

check_open : Perf → ℕ → ℕ → Profile → Advice × Profile
check_open perf m i p = elim (perf.read_counter m) [
  | none ↦ (error, p)
  | some misses ↦ elim (perf.read_counter i) [
    | none ↦ (error, p)
    | some instrs ↦
        (analyze perf misses instrs, record (close i (close m p)) { miss = none; instr = none })
  ]
]

pub check : Perf → Profile → Advice × Profile
unfolding check_open
check perf p = elim p.miss [
  | none ↦ (error, p)
  | some m ↦ elim p.instr [ none ↦ (error, p) | some i ↦ check_open perf m i p ]
]

-- In whole misses per kilo-instruction; a threshold that is not positive is ignored.
unfoldable pub set_threshold : ℕ → Context → Context
set_threshold mpki c = if mpki == 0 then c else record c { threshold = mpki }

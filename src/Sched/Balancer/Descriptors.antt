-- ===== src/Sched/Balancer/Descriptors.antt =====
-- The counters of a profile are opened once and closed once, unless a start fails halfway.
use libnumakit.Prelude.{
  ℕ, ◌≡◌, ◌≢◌, refl, ap, ◌∙◌, suc, Bool, true, false, Option, none, some, List, ◌∷◌, arith,
}
use libnumakit.Sync.Threads.{
  member, erase, Distinct, member-erase_ne, member-erase_self, erase-Distinct,
}
use libnumakit.Sched.Balancer.{
  Event, cache_misses, instructions, Perf, Profile, close, close_if, start,
}

-- The kernel hands out descriptors that are not open.
abbrev pub Fresh : Perf → Type 0
Fresh perf =
    (e : Event) (fds : List ℕ) (fd : ℕ) → perf.open_counter e fds ≡ some fd → member fd fds ≡ false

-- A thread that profiles: both counters open.
abbrev pub Profiling : ℕ → ℕ → Profile → Type 0
Profiling m i p =
    (p.miss ≡ some m)
    × (p.instr ≡ some i)
    × (m ≢ i)
    × (member m p.open_fds ≡ true)
    × (member i p.open_fds ≡ true)

close_open :
    (fd : ℕ) (p : Profile)
    → member fd p.open_fds ≡ true
    → close fd p ≡ record p { open_fds = erase fd p.open_fds }
unfolding close
close_open fd p h = ground arith

close_closed :
    (fd : ℕ) (p : Profile)
    → member fd p.open_fds ≡ false
    → close fd p ≡ record p { bad_closes = suc p.bad_closes }
unfolding close
close_closed fd p h = ground arith

erase_front : (i : ℕ) (q : List ℕ) → erase i (i ∷ q) ≡ q
unfolding erase
erase_front i q = ground arith

abbrev pub profiling : ℕ → ℕ → List ℕ → ℕ → Profile
profiling m i fds bad = record { miss = some m; instr = some i; open_fds = fds; bad_closes = bad }

abbrev pub quiet : List ℕ → ℕ → Profile
quiet fds bad = record { miss = none; instr = none; open_fds = fds; bad_closes = bad }

-- What a start comes to in a thread that does not profile.
abbrev pub Started : Profile → Bool × Profile → Type 0
Started p (false, p') = p' ≡ p
Started p (true, p') =
    (m : ℕ) × (i : ℕ) × Profiling m i p'
    × (p'.open_fds ≡ i ∷ m ∷ p.open_fds)
    × (p'.bad_closes ≡ p.bad_closes)

module _ (perf : Perf) (fresh : Fresh perf) where
  pub start-Started :
      (fds : List ℕ) (bad : ℕ) → Started (quiet fds bad) (start perf (quiet fds bad))
  unfolding start close_if
  start-Started fds bad =
      first (perf.open_counter cache_misses fds) (fresh cache_misses fds)
        (λ m. perf.open_counter instructions (m ∷ fds)) (λ m. fresh instructions (m ∷ fds))
    where
      p : Profile
      p = record { miss = none; instr = none; open_fds = fds; bad_closes = bad }

      first :
          (o : Option ℕ)
          → ((m : ℕ) → o ≡ some m → member m fds ≡ false)
          → (second : ℕ → Option ℕ) → ((m i : ℕ) → second m ≡ some i → member i (m ∷ fds) ≡ false)
          → Started p (elim o [
            | none ↦ (false, record p { miss = none })
            | some m ↦ elim (second m) [
              | none ↦ (
                false,
                record (close m (record p { open_fds = m ∷ fds })) { miss = none; instr = none },
              )
              | some i ↦ (true, record p { miss = some m; instr = some i; open_fds = i ∷ m ∷ fds })
            ]
          ])
      first none f second g = refl
      first (some m) f second g = opened m (second m) (g m)
        where
          opened :
              (m : ℕ) (o : Option ℕ)
              → ((i : ℕ) → o ≡ some i → member i (m ∷ fds) ≡ false)
              → Started p (elim o [
                | none ↦ (
                  false,
                  record (close m (record p { open_fds = m ∷ fds })) { miss = none; instr = none },
                )
                | some i ↦
                    (true, record p { miss = some m; instr = some i; open_fds = i ∷ m ∷ fds })
              ])
          opened m none g =
              rw (close_open m (record p { open_fds = m ∷ fds }) (ground arith), erase_front m fds)
                refl
          opened m (some i) g =
              let out = g i refl in
              (m, i, (refl, refl, ground arith, ground arith, ground arith), refl, refl)

start_fails :
    (perf : Perf) (p : Profile)
    → ((fds : List ℕ) → perf.open_counter cache_misses fds ≡ none)
    → start perf p ≡ (false, record (close_if p.instr (close_if p.miss p)) { miss = none })
unfolding start
start_fails perf p never = rw (never (close_if p.instr (close_if p.miss p)).open_fds, start) refl

-- When the first counter cannot be opened, a restart of a thread that profiles leaves the second
-- variable with a descriptor that is closed, and the next start closes it once more.
pub start-start_closes_twice :
    (perf : Perf) (m i : ℕ) (fds : List ℕ) (bad : ℕ)
    → m ≢ i
    → member m fds ≡ true
    → member i fds ≡ true
    → Distinct fds
    → ((fds : List ℕ) → perf.open_counter cache_misses fds ≡ none)
    → (start perf (start perf (profiling m i fds bad)).1).1.bad_closes ≡ suc bad
unfolding close_if
start-start_closes_twice perf m i fds bad ne om oi d never =
    let left : List ℕ = erase i (erase m fds) in
    let still : member i (erase m fds) ≡ true = member-erase_ne m i fds ne ∙ oi in
    let gone : member i left ≡ false = member-erase_self i (erase m fds) (erase-Distinct m fds d) in
    let first : start perf (profiling m i fds bad)
        ≡ (false, record (quiet left bad) { instr = some i }) =
      start_fails perf (profiling m i fds bad) never
      ∙ ap (λ q. (false, record q { miss = none }))
          (ap (close i) (close_open m (profiling m i fds bad) om)
            ∙ close_open i (profiling m i (erase m fds) bad) still) in
    let second : start perf (record (quiet left bad) { instr = some i })
        ≡ (false, record (quiet left (suc bad)) { instr = some i }) =
      start_fails perf (record (quiet left bad) { instr = some i }) never
      ∙ ap (λ q. (false, record q { miss = none }))
          (close_closed i (record (quiet left bad) { instr = some i }) gone) in
    ap (λ r. (start perf r.1).1.bad_closes) first ∙ ap (λ r. r.1.bad_closes) second

-- ===== src/Sched/AutoBalancer/Registry.antt =====
-- The registry counts how often a thread is registered, whatever slots it uses.
use libnumakit.Prelude.{
  ℕ, suc, ◌+◌, ◌<◌, ◌≤◌, ◌≡◌, refl, Bool, true, false, ◌&&◌, Option, none, some, List, [], ◌∷◌,
  ◌==◌, if◌then◌else◌, length, arith, Bool-cases, inl, inr,
}
use libnumakit.Sched.AutoBalancer.{
  Entry, AutoBalancer, register_in, register, unregister_in, unregister,
}

-- How often a thread is registered, and how many entries are taken.
abbrev pub times : ℕ → List Entry → ℕ
times t [] = 0
times t (e ∷ es) = (if e.active && e.tid == t then 1 else 0) + times t es

abbrev pub taken : List Entry → ℕ
taken [] = 0
taken (e ∷ es) = (if e.active then 1 else 0) + taken es

-- What registering a thread comes to.
abbrev pub Registered : ℕ → List Entry → Option (List Entry) → Type 0
Registered tid es none = taken es ≡ length es
Registered tid es (some es') =
    (taken es' ≡ suc (taken es))
    × (length es' ≡ length es)
    × ((t : ℕ) → times t es' ≡ times t es + (if tid == t then 1 else 0))

register_in-Registered :
    (tid node : ℕ) (es : List Entry) → Registered tid es (register_in tid node es)
unfolding register_in
register_in-Registered tid node [] = refl
register_in-Registered tid node (e ∷ es) =
    step e (register_in tid node es) (register_in-Registered tid node es)
  where
    step :
        (e : Entry) (o : Option (List Entry))
        → Registered tid es o
        → Registered tid (e ∷ es) (
            if e.active
            then elim o [ none ↦ none | some es' ↦ some (e ∷ es') ]
            else some (record { tid = tid; current_node = node; active = true } ∷ es))
    step e none h = ground (arith, h)
    step e (some es') (ht, hl, hc) = elim (Bool-cases e.active) [
      | inl on ↦ ground arith
      | inr off ↦ ground arith
    ]

-- What taking a thread out comes to.
abbrev pub Unregistered : ℕ → List Entry → Option (List Entry) → Type 0
Unregistered tid es none = times tid es ≡ 0
Unregistered tid es (some es') =
    (suc (taken es') ≡ taken es)
    × (length es' ≡ length es)
    × ((t : ℕ) → times t es' + (if tid == t then 1 else 0) ≡ times t es)

unregister_in-Unregistered :
    (tid : ℕ) (es : List Entry) → Unregistered tid es (unregister_in tid es)
unfolding unregister_in
unregister_in-Unregistered tid [] = refl
unregister_in-Unregistered tid (e ∷ es) =
    step e (unregister_in tid es) (unregister_in-Unregistered tid es)
  where
    step :
        (e : Entry) (o : Option (List Entry))
        → Unregistered tid es o
        → Unregistered tid (e ∷ es) (
            if e.active && e.tid == tid
            then some (record e { active = false } ∷ es)
            else elim o [ none ↦ none | some es' ↦ some (e ∷ es') ])
    step e none h = elim (Bool-cases (e.active && e.tid == tid)) [
      | inl mine ↦ ground arith
      | inr other ↦ ground (arith, h)
    ]
    step e (some es') (ht, hl, hc) = elim (Bool-cases (e.active && e.tid == tid)) [
      | inl mine ↦ ground arith
      | inr other ↦ ground arith
    ]

-- The same for the calls.
abbrev pub Join : AutoBalancer → ℕ → Bool × AutoBalancer → Type 0
Join ab tid (true, ab') =
    (taken ab.entries < length ab.entries)
    × (length ab'.entries ≡ length ab.entries)
    × ((t : ℕ) → times t ab'.entries ≡ times t ab.entries + (if tid == t then 1 else 0))
Join ab tid (false, ab') = (taken ab.entries ≡ length ab.entries) × (ab' ≡ ab)

abbrev pub Leave : AutoBalancer → ℕ → Bool × AutoBalancer → Type 0
Leave ab tid (true, ab') =
    (taken ab'.entries < length ab'.entries)
    × (length ab'.entries ≡ length ab.entries)
    × ((t : ℕ) → times t ab'.entries + (if tid == t then 1 else 0) ≡ times t ab.entries)
Leave ab tid (false, ab') = (times tid ab.entries ≡ 0) × (ab' ≡ ab)

taken-le : (es : List Entry) → taken es ≤ length es
taken-le [] = omega arith
taken-le (e ∷ es) = ground (arith, taken-le es)

-- `register` succeeds exactly when an entry is free; the thread is then registered once more and
-- every other thread as often as before. Otherwise nothing changes.
pub register-Join : (ab : AutoBalancer) (tid node : ℕ) → Join ab tid (register ab tid node)
unfolding register
register-Join ab tid node =
    cases (register_in tid node ab.entries) (register_in-Registered tid node ab.entries)
  where
    cases :
        (o : Option (List Entry))
        → Registered tid ab.entries o
        → Join ab tid (elim o [ none ↦ (false, ab) | some es ↦ (true, record ab { entries = es }) ])
    cases none h = (h, refl)
    cases (some es) (ht, hl, hc) = (omega (arith, ht, hl, taken-le es), hl, hc)

-- `unregister` succeeds exactly when the thread is registered; it is then registered once less,
-- every other thread as often as before, and an entry is free. Otherwise nothing changes.
pub unregister-Leave : (ab : AutoBalancer) (tid : ℕ) → Leave ab tid (unregister ab tid)
unfolding unregister
unregister-Leave ab tid =
    cases (unregister_in tid ab.entries) (unregister_in-Unregistered tid ab.entries)
  where
    cases :
        (o : Option (List Entry))
        → Unregistered tid ab.entries o
        → Leave ab tid
            (elim o [ none ↦ (false, ab) | some es ↦ (true, record ab { entries = es }) ])
    cases none h = (h, refl)
    cases (some es) (ht, hl, hc) = (omega (arith, ht, hl, taken-le ab.entries), hl, hc)

-- ===== src/Sync/PCounter/Lifetime.antt =====
-- nkit_pcounter_create and nkit_pcounter_destroy: every resource that is acquired is given back once.
use libnumakit.Prelude.{
  ℕ, zero, suc, ◌+◌, ◌-◌, ◌*◌, ◌<◌, ◌≡◌, refl, Bool, true, List, [], ◌∷◌, ◌++◌, length, arith,
  if◌then◌else◌, Option, none, some, replicate, length-replicate, length-append, Bool-cases, inl,
  inr, ◌==◌,
}
use libnumakit.Memory.Os.{Os, World, Resource, heap, mapping, onnode, same, release}
use libnumakit.Sync.PCounter.{
  PCounter, slot_resource, free_slots, create_slots, at_least_one, finish, create, destroy,
  sizeof_pcounter, sizeof_pointer, alloc_slot,
}
use libnumakit.Sync.PCounter.Sum.{IsValid}

-- How often a resource is live.
abbrev pub live : Resource → World → ℕ
live r [] = 0
live r (s ∷ w) = (if same r s then 1 else 0) + live r w

same_eq : (r s : Resource) → same r s ≡ true → r ≡ s
same_eq (heap a n) (heap b m) h = ground arith
same_eq (mapping a n) (mapping b m) h = ground arith
same_eq (onnode a n) (onnode b m) h = ground arith
same_eq (heap a n) (mapping b m) h = cc
same_eq (heap a n) (onnode b m) h = cc
same_eq (mapping a n) (heap b m) h = cc
same_eq (mapping a n) (onnode b m) h = cc
same_eq (onnode a n) (heap b m) h = cc
same_eq (onnode a n) (mapping b m) h = cc

live-release :
    (r s : Resource) (w : World) → live r (release s w) ≡ live r w - (if same r s then 1 else 0)
live-release r s [] = omega arith
live-release r s (t ∷ w) = elim (Bool-cases (same s t)) [
  | inl h ↦ let e : s ≡ t = same_eq s t h in ground arith
  | inr h ↦ ground (arith, live-release r s w)
]

-- The part of the slots in it.
abbrev pub part : Resource → Bool → List ℕ → ℕ
part r numa [] = 0
part r numa (p ∷ ps) = (if same r (slot_resource numa p) then 1 else 0) + part r numa ps

live-free_slots :
    (r : Resource) (numa : Bool) (ps : List ℕ) (w : World)
    → live r (free_slots numa ps w) ≡ live r w - part r numa ps
unfolding free_slots
live-free_slots r numa [] w = omega arith
live-free_slots r numa (p ∷ ps) w = omega (
  arith,
  live-free_slots r numa ps (release (slot_resource numa p) w),
  live-release r (slot_resource numa p) w,
)

part-append :
    (r : Resource) (numa : Bool) (p : ℕ) (ps : List ℕ)
    → part r numa (ps ++ p ∷ []) ≡ part r numa ps + (if same r (slot_resource numa p) then 1 else 0)
part-append r numa p [] = omega arith
part-append r numa p (q ∷ ps) = omega (arith, part-append r numa p ps)

-- What the loop over the slots may leave behind.
abbrev pub Filled : Resource → Bool → List ℕ → ℕ → World → Option (List ℕ) × World → Type 0
Filled r numa done n w (none, w') = live r w' ≡ live r w - part r numa done
Filled r numa done n w (some slots, w') =
    (length slots ≡ length done + n) × (live r w' + part r numa done ≡ live r w + part r numa slots)

create_slots-Filled :
    (r : Resource) (os : Os) (numa : Bool) (n i : ℕ) (done : List ℕ) (w : World)
    → Filled r numa done n w (create_slots os numa n i done w)
unfolding create_slots
create_slots-Filled r os numa zero i done w = (omega arith, refl)
create_slots-Filled r os numa (suc n) i done w =
    step (alloc_slot os numa i w) (create_slots-Filled r os numa n (i + 1))
  where
    step :
        (p : ℕ)
        → ((done' : List ℕ) (w' : World)
            → Filled r numa done' n w' (create_slots os numa n (i + 1) done' w'))
        → Filled r numa done (suc n) w (
            if p == 0
            then (none, free_slots numa done w)
            else create_slots os numa n (i + 1) (done ++ p ∷ []) (slot_resource numa p ∷ w))
    step p ih = elim (Bool-cases (p == 0)) [
      | inl failed ↦ ground (arith, live-free_slots r numa done w)
      | inr made ↦ rw made (
          onward (create_slots os numa n (i + 1) (done ++ p ∷ []) (slot_resource numa p ∷ w))
            (ih (done ++ p ∷ []) (slot_resource numa p ∷ w)))
    ]
      where
        onward :
            (res : Option (List ℕ) × World)
            → Filled r numa (done ++ p ∷ []) n (slot_resource numa p ∷ w) res
            → Filled r numa done (suc n) w res
        onward (none, w') h = omega (arith, part-append r numa p done, h)
        onward (some slots, w') h = (
          omega (arith, length-append done (p ∷ []), h.0),
          omega (arith, part-append r numa p done, h.1),
        )

-- What a call of `create` may leave behind.
abbrev pub Created : Resource → Bool → ℕ → World → Option PCounter × World → Type 0
Created r numa nodes w (none, w') = live r w' ≡ live r w
Created r numa nodes w (some c, w') =
    IsValid c
    × (c.num_nodes ≡ at_least_one nodes)
    × (c.values ≡ replicate (at_least_one nodes) 0)
    × (live r (destroy numa c w') ≡ live r w)

finish-Created :
    (r : Resource) (numa : Bool) (p q nodes : ℕ) (w : World) (res : Option (List ℕ) × World)
    → Filled r numa []
        (at_least_one nodes)
        (heap q (sizeof_pointer * at_least_one nodes) ∷ heap p sizeof_pcounter ∷ w)
        res
    → Created r numa nodes w (finish p q (at_least_one nodes) res)
unfolding finish destroy
finish-Created r numa p q nodes w (none, w') h = omega (
  arith,
  h,
  live-release r (heap q (sizeof_pointer * at_least_one nodes)) w',
  live-release r (heap p sizeof_pcounter)
      (release (heap q (sizeof_pointer * at_least_one nodes)) w'),
)
finish-Created r numa p q nodes w (some slots, w') h = (
  record { nonempty = positive nodes; one_each = length-replicate (at_least_one nodes) 0 },
  refl,
  refl,
  omega (
    arith,
    h.1,
    live-release r (heap p sizeof_pcounter)
        (release (heap q (sizeof_pointer * at_least_one nodes)) (free_slots numa slots w')),
    live-release r (heap q (sizeof_pointer * at_least_one nodes)) (free_slots numa slots w'),
    live-free_slots r numa slots w',
  ),
)
  where
    positive : (n : ℕ) → 0 < at_least_one n
    positive zero = omega arith
    positive (suc n) = omega arith

-- `create` makes a valid counter with a slot of 0 for each node, or returns NULL; in the first case
-- behind `destroy`, in the second at once, every resource is as often live as before.
pub create-Created :
    (r : Resource) (os : Os) (numa : Bool) (nodes : ℕ) (w : World)
    → Created r numa nodes w (create os numa nodes w)
unfolding create
create-Created r os numa nodes w =
    let n = at_least_one nodes in
    let p = os.malloc w sizeof_pcounter in
    let q = os.malloc (heap p sizeof_pcounter ∷ w) (sizeof_pointer * n) in
    cases p q
      (create_slots os numa n 0 [] (heap q (sizeof_pointer * n) ∷ heap p sizeof_pcounter ∷ w))
      (create_slots-Filled r os numa n 0 []
        (heap q (sizeof_pointer * n) ∷ heap p sizeof_pcounter ∷ w))
  where
    cases :
        (p q : ℕ) (res : Option (List ℕ) × World)
        → Filled r numa []
            (at_least_one nodes)
            (heap q (sizeof_pointer * at_least_one nodes) ∷ heap p sizeof_pcounter ∷ w)
            res
        → Created r numa nodes w (
            if p == 0
            then (none, w)
            else if q == 0
            then (none, release (heap p sizeof_pcounter) (heap p sizeof_pcounter ∷ w))
            else finish p q (at_least_one nodes) res)
    cases p q res h = elim (Bool-cases (p == 0)) [
      | inl no_struct ↦ rw no_struct refl
      | inr got_struct ↦ elim (Bool-cases (q == 0)) [
        | inl no_array ↦
            rw (got_struct, no_array)
              (omega (arith, live-release r (heap p sizeof_pcounter) (heap p sizeof_pcounter ∷ w)))
        | inr got_array ↦ rw (got_struct, got_array) (finish-Created r numa p q nodes w res h)
      ]
    ]

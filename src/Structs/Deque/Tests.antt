-- ===== src/Structs/Deque/Tests.antt =====
-- Runs of the deque, and its theorems at concrete deques.
use libnumakit.Prelude.{ℕ, ◌≡◌, refl, Bool, true, Option, none, some, [], ◌∷◌, arith}
use libnumakit.Memory.Os.{Os, World}
use libnumakit.Structs.Deque.{
  Deque, push, pop, steal, put, store, load, resize, resize_to, array_alloc, copy_items, retire,
  create, create_retired, destroy, free_all, array_free, size,
}
use libnumakit.Structs.Deque.Refine.{Holds, steal_lem}
use libnumakit.Structs.Deque.Owner.{pop_lem}
use libnumakit.Structs.Deque.Growth.{Pushed, push-Pushed}

abbrev roomy : Os
roomy = record {
  malloc = λ _ _. 64;
  mmap = λ _ _ _. 4096;
  numa_alloc = λ _ _ _. 8192;
  mbind = λ _ _ _. true;
  madvise = λ _ _. true;
  page_size = 4096;
  numa_available = true;
}

-- Two slots, with the items 5 and 6 at positions 3 and 4.
abbrev full : Deque
full = record {
  addr = 64;
  node_id = 0;
  bottom = 5;
  top = 3;
  array = record { place = 128; size = 2; mask = 1; buffer = 6 ∷ 5 ∷ [] };
  retired_arrays = 256;
  retired = [];
  retired_capacity = 8;
}

full-Holds : Holds 1 (5 ∷ 6 ∷ []) full
full-Holds = record {
  narrow = omega arith;
  shaped = record { size_eq = refl; mask_eq = refl; length_eq = refl };
  order = omega arith;
  room = omega arith;
  content = refl;
}

-- A third item doubles the array; thief and owner then take from either end.
abbrev ends_of :
    Option (Bool × Deque × World) → Option (Option ℕ × Deque) × Option (Option ℕ × Deque)
ends_of none = (none, none)
ends_of (some (b, d, w)) = (steal d, pop d)

abbrev item_of : Option (Option ℕ × Deque) → Option ℕ
item_of none = none
item_of (some (o, d)) = o

grow-ends :
    ((item_of (ends_of (push roomy 7 full [])).0 ≡ some 5)
      × (item_of (ends_of (push roomy 7 full [])).1 ≡ some 7))
unfolding push resize resize_to array_alloc copy_items retire put store load pop steal
grow-ends = (refl, refl)

push-Pushed_example : Pushed 1 (5 ∷ 6 ∷ []) 7 full (push roomy 7 full [])
push-Pushed_example =
    push-Pushed roomy 1 (5 ∷ 6 ∷ []) 7 full [] (omega arith) (λ z. ground arith) full-Holds

pop_lem_example : (d' : Deque) × (pop full ≡ some (some 6, d')) × Holds 1 (5 ∷ []) d'
pop_lem_example = pop_lem 1 (5 ∷ []) 6 full full-Holds

steal_lem_example : (d' : Deque) × (steal full ≡ some (some 5, d')) × Holds 1 (6 ∷ []) d'
steal_lem_example = steal_lem 1 5 (6 ∷ []) full full-Holds

abbrev left_over : Option Deque × World → World
left_over (none, w) = w
left_over (some d, w) = destroy d w

create-destroy : left_over (create roomy 1 4 []) ≡ []
unfolding create create_retired array_alloc destroy free_all array_free
create-destroy = refl

size_full : size full ≡ 2
unfolding size
size_full = refl

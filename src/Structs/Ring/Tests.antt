-- ===== src/Structs/Ring/Tests.antt =====
-- Runs of the ring, and its theorems at concrete rings.
use libnumakit.Prelude.{
  ℕ, ◌^◌, ◌≡◌, refl, Bool, true, false, Option, none, some, List, [], ◌∷◌, arith, align_up,
}
use libnumakit.Memory.Os.{Os, World, mapping, heap, bind}
use libnumakit.Memory.Arena
use libnumakit.Memory.Arena.{Arena}
use libnumakit.Structs.Ring.{
  Ring, init, push, pop, create, free, push_loop, pop_loop, push_round, pop_round, cells_from,
  place,
}
use libnumakit.Structs.Ring.Invariant.{IsValid, contents}
use libnumakit.Structs.Ring.Refine.{queue_push, queue_pop, push_refines, pop_refines}
use libnumakit.Structs.Ring.Create.{Made, create-Made, free-create, init-IsValid}

abbrev some_arena : Arena
some_arena = record {
  addr = 64;
  base = 4096;
  size = 2097152;
  used = 0;
  node_id = 0;
  use_huge = true;
  policy = none;
}

abbrev two : Ring
two = init 2 some_arena

-- The first exchange fails, the second is let through.
abbrev second_try : List Bool
second_try = false ∷ true ∷ []

abbrev roomy : Os
roomy = record {
  malloc = λ _ _. 64;
  mmap = λ _ _ _. 4096;
  numa_alloc = λ _ _ _. 8192;
  mbind = λ _ _ _. true;
  madvise = λ _ _. true;
  page_size = 4096;
  numa_available = true;
}

-- Two items go in, a third finds the ring full, and they come out in order.
abbrev contents_after : Option (Bool × Ring) → Option (Option ℕ × Ring)
contents_after none = none
contents_after (some (b, r)) = pop second_try r

push-pop : ((r : Ring) × (contents_after (push second_try two 7) ≡ some (some 7, r)))
unfolding push pop push_loop pop_loop push_round pop_round init cells_from
push-pop = (_, refl)

push_refines_example :
    (b : Bool) × (h' : ℕ) × (r' : Ring) × (push second_try two 7 ≡ some (b, r'))
    × IsValid 1 0 h' r'
    × (queue_push (2 ^ 1) (contents 1 0 0 two) 7 ≡ (b, contents 1 0 h' r'))
push_refines_example =
    push_refines (init-IsValid 1 some_arena (omega arith) (omega arith)) second_try 7 refl

pop_refines_example :
    (out : Option ℕ) × (t' : ℕ) × (r' : Ring) × (pop second_try two ≡ some (out, r'))
    × IsValid 1 t' 0 r'
    × (queue_pop (contents 1 0 0 two) ≡ (out, contents 1 t' 0 r'))
pop_refines_example =
    pop_refines (init-IsValid 1 some_arena (omega arith) (omega arith)) second_try refl

create-Made_example : Made roomy 4096 [] (create roomy 1 4096 [])
create-Made_example = create-Made roomy 1 4096 [] (omega arith)

-- The ring that the code makes for 2^60 cells.
abbrev wide_ring : Ring
wide_ring = init (2 ^ 60) (record some_arena { used = 384; node_id = 1; policy = some bind })

abbrev after_wide : World
after_wide = mapping 4096 2097152 ∷ heap 64 32 ∷ []

wide_ring_made : create roomy 1 (2 ^ 60) [] ≡ (some wide_ring, after_wide)
unfolding create place Arena.create Arena.alloc align_up
wide_ring_made = refl

-- A ring of 16 cells.
abbrev small_ring : Ring
small_ring = init 16 (record some_arena { used = 640; node_id = 1; policy = some bind })

small_ring_made : create roomy 1 16 [] ≡ (some small_ring, after_wide)
unfolding create place Arena.create Arena.alloc align_up
small_ring_made = refl

free-create_example : free small_ring after_wide ≡ []
unfolding init
free-create_example =
    free-create roomy 1 16 [] after_wide small_ring (omega arith) (λ z. ground arith)
      small_ring_made

-- ===== src/Memory/Tests.antt =====
-- The theorems of the memory code at concrete arenas, slabs and pools.
use libnumakit.Prelude.{
  ℕ, zero, suc, ◌+◌, ◌-◌, ◌^◌, ◌%◌, ◌≤◌, ◌<◌, ◌≡◌, ◌≢◌, refl, sym, Bool, true, ◌&&◌, Option, some,
  [], ◌∷◌, arith, replicate, length-replicate, get_or, align_up, leb, ◌==◌, if◌then◌else◌,
  Bool-cases, inl, inr,
}
use mathlib.Core.List.Perm
use mathlib.Core.Path.{subst}
use libnumakit.Memory.Os.{Os, World, mapping, heap, bind, map_failed}
use libnumakit.Memory.Arena
use libnumakit.Memory.Arena.{Arena, coalesce}
use libnumakit.Memory.Arena.Blocks.{
  IsValid, Ascending, alloc_all, alloc_all-Ascending, alloc_wraps, lines,
}
use libnumakit.Memory.Slab
use libnumakit.Memory.Slab.{Slab}
use libnumakit.Memory.Slab.Create.{Built, create-Built}
use libnumakit.Memory.Slab.Ownership.{Owned, Allocated, alloc-Allocated, free-Owned}
use libnumakit.Memory.Pool
use libnumakit.Memory.Pool.{Pool, num_size_classes, sizeof_header}
use libnumakit.Memory.Pool.Search.{Blocks, PoolOwned, give}
use libnumakit.Memory.Pool.Create.{Stocked, create-Stocked}
use libnumakit.Memory.Pool.Ownership.{free-PoolOwned}
use libnumakit.Structs.Ring.{Ring, init, pop, first_try}
use libnumakit.Structs.Ring.Invariant.{no_cell}
use libnumakit.Structs.Ring.Create.{init-IsValid}
use libnumakit.Structs.Ring.Queue.{Holds, SamePlace, pop_cons}

-- Memory at one place, for requests of up to 2^62 bytes.
abbrev modest : Os
modest = record {
  malloc = λ _ _. 64;
  mmap = λ _ n _. if leb n (2 ^ 62) then 4194304 else map_failed;
  numa_alloc = λ _ _ _. 8192;
  mbind = λ _ _ _. true;
  madvise = λ _ _. true;
  page_size = 4096;
  numa_available = true;
}

abbrev arena : Arena
arena = record {
  addr = 64;
  base = 4194304;
  size = 2097152;
  used = 0;
  node_id = 1;
  use_huge = true;
  policy = some bind;
}

abbrev after : World
after = mapping 4194304 2097152 ∷ heap 64 32 ∷ []

arena_made : Arena.create modest 1 1000 [] ≡ (some arena, after)
unfolding Arena.create align_up
arena_made = refl

modest_maps : (w : World) (n : ℕ) (h : Bool) → modest.mmap w n h ≢ 0
modest_maps w n h = ground arith

modest_low :
    (w : World) (n : ℕ) (h : Bool) → modest.mmap w n h ≢ map_failed → modest.mmap w n h + n ≤ 2 ^ 63
modest_low w n h = ground arith

arena-IsValid : IsValid arena
arena-IsValid = record { within = omega arith; room = omega arith; line = refl }

alloc_all-Ascending_example :
    Ascending 4194304
      (4194304 + 0)
      (4194304 + 2097152)
      (alloc_all arena (100 ∷ 3000000 ∷ 64 ∷ [])).0
alloc_all-Ascending_example =
    alloc_all-Ascending (100 ∷ 3000000 ∷ 64 ∷ []) arena arena-IsValid
      (omega arith, (omega arith, (omega arith, tt)))

alloc_wraps_example :
    (Arena.alloc arena (2 ^ 64 - 1) ≡ (some (4194304 + 0), arena))
    × ((Arena.alloc (Arena.alloc arena (2 ^ 64 - 1)).1 100).0 ≡ (Arena.alloc arena (2 ^ 64 - 1)).0)
alloc_wraps_example =
    alloc_wraps (2 ^ 64 - 1) 100 arena-IsValid (omega arith) (omega arith) (omega arith)
      (omega arith)

-- One huge page above the mark, of two.
abbrev half_used : Arena
half_used = record arena { size = 4194304; used = 2097088 }

create-Built_example : Built 16 (lines 100) [] (Slab.create modest 1 100 16 [])
create-Built_example =
    create-Built modest modest_maps modest_low 1 100 16 [] (omega arith) (omega arith) (omega arith)

-- A slab of two blocks: both are free.
abbrev two_free : Ring
two_free = record (init 2 arena) {
  head = 2;
  cells = record { sequence = 1; item = 128 } ∷ record { sequence = 2; item = 192 } ∷ [];
}

two_free-Holds : Holds 1 (128 ∷ 192 ∷ []) two_free
unfolding init
two_free-Holds = (
  0,
  2,
  record {
    wide = omega arith;
    narrow = omega arith;
    capacity_eq = refl;
    mask_eq = refl;
    length_eq = refl;
    order = omega arith;
    room = omega arith;
    head_eq = refl;
    tail_eq = refl;
    taken = λ p lo hi. sequences p hi;
    open_slots = λ p lo hi. absurd (omega arith);
  },
  refl,
)
  where
    sequences :
        (p : ℕ) → p < 2 → (get_or two_free.cells (p % 2) no_cell).sequence ≡ (p + 1) % 2 ^ 64
    sequences zero lt = refl
    sequences (suc zero) lt = refl
    sequences (suc (suc p)) lt = absurd (omega arith)

abbrev slab_of : Ring → Slab
slab_of ring = record { arena = arena; freelist = ring; base = 128; obj_size = 64; capacity = 2 }

two_free-Owned : Owned 1 (128 ∷ 192 ∷ []) [] (slab_of two_free)
two_free-Owned = record {
  free_list = 128 ∷ 192 ∷ [];
  holds = two_free-Holds;
  all_there = Perm.refl (128 ∷ 192 ∷ []);
  enough = refl;
}

alloc-Allocated_example :
    (o : Option ℕ) × (s' : Slab) × (Slab.alloc (slab_of two_free) ≡ some (o, s'))
    × Allocated 1 (128 ∷ 192 ∷ []) [] o s'
alloc-Allocated_example = alloc-Allocated two_free-Owned

-- One of them is held.
abbrev one_free : Ring
one_free = record (init 2 arena) {
  head = 1;
  cells = record { sequence = 1; item = 128 } ∷ record { sequence = 1; item = 0 } ∷ [];
}

one_free-Holds : Holds 1 (128 ∷ []) one_free
unfolding init
one_free-Holds = (
  0,
  1,
  record {
    wide = omega arith;
    narrow = omega arith;
    capacity_eq = refl;
    mask_eq = refl;
    length_eq = refl;
    order = omega arith;
    room = omega arith;
    head_eq = refl;
    tail_eq = refl;
    taken = λ p lo hi. filled p hi;
    open_slots = λ p lo hi. vacant p lo hi;
  },
  refl,
)
  where
    filled : (p : ℕ) → p < 1 → (get_or one_free.cells (p % 2) no_cell).sequence ≡ (p + 1) % 2 ^ 64
    filled zero lt = refl
    filled (suc p) lt = absurd (omega arith)

    vacant : (p : ℕ) → 1 ≤ p → p < 2 → (get_or one_free.cells (p % 2) no_cell).sequence ≡ p % 2 ^ 64
    vacant zero lo hi = absurd (omega arith)
    vacant (suc zero) lo hi = refl
    vacant (suc (suc p)) lo hi = absurd (omega arith)

one_free-Owned : Owned 1 (128 ∷ 192 ∷ []) (192 ∷ []) (slab_of one_free)
one_free-Owned = record {
  free_list = 128 ∷ [];
  holds = one_free-Holds;
  all_there = Perm.refl (128 ∷ 192 ∷ []);
  enough = refl;
}

free-Owned_example :
    (s' : Slab) × (Slab.free (slab_of one_free) 192 ≡ some s') × Owned 1 (128 ∷ 192 ∷ []) [] s'
free-Owned_example = free-Owned 192 (λ z. omega arith) one_free-Owned

abbrev popped :
    (r : Ring) × (pop first_try two_free ≡ some (some 128, r))
    × Holds 1 (192 ∷ []) r
    × SamePlace two_free r
popped = pop_cons first_try refl 128 (192 ∷ []) two_free-Holds

alloc_popped :
    (s : Slab) (out : Option ℕ) (r : Ring)
    → pop first_try s.freelist ≡ some (out, r)
    → Slab.alloc s ≡ some (out, record s { freelist = r })
unfolding Slab.alloc
alloc_popped s out r e = rw (e, Slab.alloc) refl

first_block :
    Slab.alloc (slab_of two_free)
    ≡ some (some 128, record (slab_of two_free) { freelist = popped.0 })
first_block = alloc_popped (slab_of two_free) (some 128) popped.0 popped.1

-- A pool of one node, all of whose blocks are held but those of class 3, which lack one.
empty_ring : Holds 10 [] (init (2 ^ 10) arena)
empty_ring = (0, 0, init-IsValid 10 arena (omega arith) (omega arith), refl)

abbrev all_blocks : Blocks
all_blocks n c = replicate 1024 128

exhausted : Owned 10 (replicate 1024 128) (replicate 1024 128) (slab_of (init (2 ^ 10) arena))
exhausted = record {
  free_list = [];
  holds = empty_ring;
  all_there = Perm.refl (replicate 1024 128);
  enough = length-replicate {A = ℕ} 1024 128;
}

abbrev pool : Pool
pool = record {
  num_nodes = 1;
  slabs = λ n c. some (slab_of (init (2 ^ 10) arena));
  header = λ p. some (0, 3);
}

-- What is held besides one block of class 3.
abbrev held : Blocks
held n c = if 0 == n && 3 == c then replicate 1023 128 else replicate 1024 128

all_held : (n c : ℕ) → give held 0 3 128 n c ≡ replicate 1024 128
all_held n c = elim (Bool-cases (0 == n && 3 == c)) [
  | inl here ↦ rw here refl
  | inr away ↦ rw away refl
]

held-PoolOwned : PoolOwned pool all_blocks (give held 0 3 128)
held-PoolOwned = record {
  some_node = omega arith;
  each = λ n c hn hc. record {
    slab = slab_of (init (2 ^ 10) arena);
    there = refl;
    owned =
        subst (λ l. Owned 10 (replicate 1024 128) l (slab_of (init (2 ^ 10) arena)))
          (sym (all_held n c)) exhausted;
  };
}

free-PoolOwned_example :
    (pool' : Pool) × (Pool.free pool (128 + sizeof_header) ≡ some pool')
    × PoolOwned pool' all_blocks held
free-PoolOwned_example =
    free-PoolOwned 0 3 128 (λ z. omega arith) (omega arith) (omega arith) refl held-PoolOwned

counts_two : (Slab.available (slab_of two_free) ≡ 2) × (Slab.slab_capacity (slab_of two_free) ≡ 2)
unfolding Slab.available Slab.slab_capacity init
counts_two = (refl, refl)

reset_used : (Arena.reset half_used).used ≡ 0
unfolding Arena.reset
reset_used = refl

create-Stocked_example : Stocked 2 (Pool.create modest true 2 [])
create-Stocked_example = create-Stocked modest modest_maps modest_low 2 [] (omega arith)

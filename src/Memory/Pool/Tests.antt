-- ===== src/Memory/Pool/Tests.antt =====
-- Runs of the pool's life without memory.
use libnumakit.Prelude.{align_up, ◌≡◌, refl, true, false, none, some, []}
use libnumakit.Memory.Os.{Os}
use libnumakit.Memory.Slab
use libnumakit.Memory.Arena
use libnumakit.Memory.Pool.{
  create, create_nodes, create_classes, destroy, destroy_nodes, destroy_classes,
}

abbrev poor : Os
poor = record {
  malloc = λ _ _. 0;
  mmap = λ _ _ _. 4096;
  numa_alloc = λ _ _ _. 0;
  mbind = λ _ _ _. true;
  madvise = λ _ _. true;
  page_size = 4096;
  numa_available = true;
}

create_without_memory : create poor true 2 [] ≡ some (none, [])
unfolding create create_nodes create_classes destroy destroy_nodes destroy_classes Slab.create
    Slab.carve Arena.create align_up
create_without_memory = refl

create_uninitialized : create poor false 2 [] ≡ some (none, [])
unfolding create
create_uninitialized = refl

-- ===== src/Memory/Os.antt =====
-- What the memory code asks of the C library, of libnuma and of the kernel: `malloc`, `mmap`,
-- `numa_alloc_onnode`, `mbind`, `madvise`. Their answers are a parameter of the model; what the
-- code acquires and gives back is a list of live resources that each call changes.
use libnumakit.Prelude.{
  ℕ, ◌-◌, ◌^◌, ◌≡◌, Bool, true, false, ◌&&◌, List, [], ◌∷◌, arith, ◌==◌, if◌then◌else◌,
}

-- A resource with its address and its size in bytes.
pub data Resource : Type 0 where
  heap : ℕ → ℕ → Resource  -- malloc, calloc
  mapping : ℕ → ℕ → Resource  -- mmap
  onnode : ℕ → ℕ → Resource  -- numa_alloc_onnode

abbrev pub World : Type 0
World = List Resource

abbrev pub same : Resource → Resource → Bool
same (heap a n) (heap b m) = a == b && n == m
same (mapping a n) (mapping b m) = a == b && n == m
same (onnode a n) (onnode b m) = a == b && n == m
same _ _ = false

pub data Policy : Type 0 where
  bind preferred : Policy

-- The answers may depend on everything that is live. NULL is 0.
pub record Os : Type 0 where
  pub malloc : World → ℕ → ℕ
  pub mmap : World → ℕ → Bool → ℕ  -- the flag is MAP_HUGETLB
  pub numa_alloc : World → ℕ → ℕ → ℕ
  pub mbind : ℕ → ℕ → Policy → Bool
  pub madvise : ℕ → ℕ → Bool
  pub page_size : ℕ  -- sysconf(_SC_PAGESIZE)
  pub numa_available : Bool

-- `MAP_FAILED` is `(void *) -1`.
abbrev pub map_failed : ℕ
map_failed = 2 ^ 64 - 1

-- `free`, `munmap` and `numa_free` take one resource off the list.
abbrev pub release : Resource → World → World
release r [] = []
release r (s ∷ w) = if same r s then w else s ∷ release r w

pub same_self : (r : Resource) → same r r ≡ true
same_self (heap a n) = ground arith
same_self (mapping a n) = ground arith
same_self (onnode a n) = ground arith

-- State passing, with the results in front.
abbrev pub M {ℓ} : Type ℓ → Type ℓ
M A = World → A × World

-- ===== src/Memory/Arena.antt =====
-- src/memory/arena.c: bump allocation in one mapping.
pub mod Lifetime
pub mod Blocks
pub mod Coalesce
use libnumakit.Prelude.{
  ℕ, ◌+◌, ◌-◌, ◌*◌, ◌/◌, ◌%◌, ◌^◌, Bool, true, false, not, ◌&&◌, ◌||◌, Option, none, some, ◌∷◌,
  add64, sub64, mul64, align_up, ltb, leb, ◌==◌, if◌then◌else◌,
}
use libnumakit.Memory.Os.{Os, World, M, heap, mapping, release, map_failed, Policy, bind, preferred}

abbrev pub huge_page_size : ℕ
huge_page_size = 2 * 1024 * 1024

-- sizeof(nkit_arena_t)
abbrev pub sizeof_arena : ℕ
sizeof_arena = 32

-- `struct nkit_arena_s`, with the address of the struct itself.
pub record Arena : Type 0 where
  pub addr : ℕ
  pub base : ℕ
  pub size : ℕ
  pub used : ℕ
  pub node_id : ℕ
  pub use_huge : Bool
  pub policy : Option Policy  -- the policy that the kernel accepted for the mapping

-- Huge pages are asked for first, then standard ones.
map_pages : Os → ℕ → World → ℕ × Bool
map_pages os n w =
    let b = os.mmap w n true in if b == map_failed then (os.mmap w n false, false) else (b, true)

-- Strict binding first, a preference if that is refused; a refusal of both is ignored.
numa_policy : Os → ℕ → ℕ → Option Policy
numa_policy os b n =
    if os.mbind b n bind then some bind else if os.mbind b n preferred then some preferred else none

unfoldable pub create : Os → ℕ → ℕ → M (Option Arena)
unfolding map_pages numa_policy
create os node_id size w =
    if size == 0
    then (none, w)
    else let p = os.malloc w sizeof_arena in
      if p == 0
      then (none, w)
      else let w1 = heap p sizeof_arena ∷ w in
        let n = align_up size huge_page_size in
        let (b, huge) = map_pages os n w1 in
        if b == map_failed then (none, release (heap p sizeof_arena) w1) else (
          some (record {
            addr = p;
            base = b;
            size = n;
            used = 0;
            node_id = node_id;
            use_huge = huge;
            policy = numa_policy os b n;
          }),
          mapping b n ∷ w1,
        )

-- The result is the address, or NULL.
unfoldable pub alloc : Arena → ℕ → Option ℕ × Arena
alloc a size =
    let aligned = align_up size 64 in
    if ltb a.size (add64 a.used aligned)
    then (none, a)
    else (some (add64 a.base a.used), record a { used = add64 a.used aligned })

unfoldable pub destroy : Arena → World → World
destroy a w =
    let w1 =
      if not (a.base == 0) && not (a.base == map_failed)
      then release (mapping a.base a.size) w
      else w in
    release (heap a.addr sizeof_arena) w1

unfoldable pub reset : Arena → Arena
reset a = record a { used = 0 }

-- `nkit_arena_coalesce`, up to the call of `madvise`: where the unused pages begin and how many
-- whole ones there are; `none` where the code returns early.
pub unused_pages : Os → Arena → Option (ℕ × ℕ × ℕ)
unused_pages os a =
    if a.base == 0 || a.base == map_failed || a.size == 0
    then none
    else let page = if a.use_huge then huge_page_size else os.page_size in
      if page == 0
      then none
      else let used_end = add64 a.base a.used in
        let first = align_up used_end page in
        let end = add64 a.base a.size in
        if leb end first
        then none
        else let pages = sub64 end first / page in
          if pages == 0 then none else some (first, pages, page)

-- The kernel may refuse the advice.
pub advise : Os → Option (ℕ × ℕ × ℕ) → ℕ
advise os none = 0
advise os (some (first, pages, page)) = if os.madvise first (mul64 pages page) then pages else 0

unfoldable pub coalesce : Os → Arena → ℕ
unfolding advise
coalesce os a = advise os (unused_pages os a)

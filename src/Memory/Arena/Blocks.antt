-- ===== src/Memory/Arena/Blocks.antt =====
-- nkit_arena_alloc: the blocks of one arena never overlap.
use libnumakit.Prelude.{
  ℕ, ◌+◌, ◌-◌, ◌*◌, ◌/◌, ◌≤◌, ◌<◌, ◌^◌, ◌%◌, ◌≡◌, none, some, List, [], ◌∷◌, arith, align_up_line,
  align_up_line_wraps, ltb, add64, if◌then◌else◌,
}
use libnumakit.Memory.Arena.{Arena, alloc}

-- The bytes of the arena lie in the address space, below 2^63, and the mark is on a cache line.
pub record IsValid (a : Arena) : Type 0 where
  pub within : a.used ≤ a.size
  pub room : a.base + a.size ≤ 2 ^ 63
  pub line : a.used % 64 ≡ 0

-- Whole cache lines for `size` bytes.
abbrev pub lines : ℕ → ℕ
lines size = (size + 63) / 64 * 64

-- `alloc` on both of its branches: it hands out the bytes at the mark, or leaves the arena alone.
pub alloc_lem :
    {a : Arena} (size : ℕ)
    → IsValid a
    → size + 63 < 2 ^ 63
    → alloc a size ≡ (
        if ltb a.size (a.used + lines size)
        then (none, a)
        else (some (a.base + a.used), record a { used = a.used + lines size }))
unfolding alloc
alloc_lem {a} size v h = ground (arith, align_up_line size (omega arith))

-- The first block of an arena that has room for it.
pub alloc_first :
    (a : Arena) (size : ℕ)
    → a.used ≡ 0
    → size + 63 < 2 ^ 63
    → lines size ≤ a.size
    → alloc a size ≡ (some (add64 a.base a.used), record a { used = lines size })
unfolding alloc
alloc_first a size fresh small fits = ground (arith, align_up_line size (omega arith))

pub alloc-IsValid :
    {a : Arena} (size : ℕ) → IsValid a → size + 63 < 2 ^ 63 → IsValid (alloc a size).1
alloc-IsValid {a} size v h = rw (alloc_lem size v h) (ground arith)

pub base-alloc :
    (a : Arena) (size : ℕ) → ((alloc a size).1.base ≡ a.base) × ((alloc a size).1.size ≡ a.size)
unfolding alloc
base-alloc a size = ground arith

-- The blocks that a series of calls hands out, each with its address and the size asked for.
pub alloc_all : Arena → List ℕ → List (ℕ × ℕ) × Arena
alloc_all a [] = ([], a)
alloc_all a (n ∷ ns) =
    let (r, a') = alloc a n in
    let (bs, a'') = alloc_all a' ns in elim r [ none ↦ (bs, a'') | some p ↦ ((p, n) ∷ bs, a'') ]

-- Blocks in ascending order between two addresses, none overlapping the next, each on a cache line
-- counted from `base`.
abbrev pub Ascending : ℕ → ℕ → ℕ → List (ℕ × ℕ) → Type 0
Ascending base lo hi [] = lo ≤ hi
Ascending base lo hi ((p, n) ∷ bs) = (lo ≤ p) × ((p - base) % 64 ≡ 0) × Ascending base (p + n) hi bs

abbrev pub Small : List ℕ → Type 0
Small [] = Unit
Small (n ∷ ns) = (n + 63 < 2 ^ 63) × Small ns

Ascending-weaken :
    (base lo lo' hi : ℕ) (bs : List (ℕ × ℕ))
    → lo ≤ lo'
    → Ascending base lo' hi bs
    → Ascending base lo hi bs
Ascending-weaken base lo lo' hi [] h c = omega arith
Ascending-weaken base lo lo' hi ((p, n) ∷ bs) h c = (omega arith, c.1, c.2)

-- However many blocks of fewer than 2^63 - 63 bytes are asked for, those that a valid arena hands
-- out lie in its unused part, each behind the one before, on cache lines.
pub alloc_all-Ascending :
    (ns : List ℕ) (a : Arena)
    → IsValid a
    → Small ns
    → Ascending a.base (a.base + a.used) (a.base + a.size) (alloc_all a ns).0
unfolding alloc_all
alloc_all-Ascending [] a v s = omega arith
alloc_all-Ascending (n ∷ ns) a v s = ground (
  arith,
  alloc_lem n v s.0,
  alloc-IsValid n v s.0,
  alloc_all-Ascending ns (alloc a n).1 (alloc-IsValid n v s.0) s.1,
  Ascending-weaken a.base (a.base + a.used + n) (a.base + (a.used + lines n)) (a.base + a.size)
      (alloc_all (alloc a n).1 ns).0,
)

-- A request of more than 2^64 - 64 bytes rounds up to nothing: a valid arena returns an address and
-- stays as it is, so that the next block that fits has the same address.
pub alloc_wraps :
    {a : Arena} (size n : ℕ)
    → IsValid a
    → 2 ^ 64 ≤ size + 63
    → size < 2 ^ 64
    → n + 63 < 2 ^ 63
    → a.used + lines n ≤ a.size
    → (alloc a size ≡ (some (a.base + a.used), a))
      × ((alloc (alloc a size).1 n).0 ≡ (alloc a size).0)
unfolding alloc
alloc_wraps {a} size n v lo hi small room =
    ground (arith, align_up_line_wraps size hi lo, align_up_line n (omega arith))

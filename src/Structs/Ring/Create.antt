-- ===== src/Structs/Ring/Create.antt =====
-- nkit_ring_create and nkit_ring_free.
use libnumakit.Prelude.{
  ℕ, ◌+◌, ◌*◌, ◌^◌, ◌%◌, ◌≤◌, ◌<◌, ◌≡◌, ◌≢◌, zero, suc, true, Option, none, some, [], ◌∷◌,
  pow2_of_test, length, get_or, arith, dec_lt, ◌∙◌, ap, sym, refl, align_up_huge, Bool-cases, inl,
  inr,
}
use mathlib.Core.Path.{subst}
use native.Mathlib.Nat.{pow-le-pow_right, mod-eq_of_lt}
use libnumakit.Memory.Os.{Os, World, mapping, heap, map_failed}
use libnumakit.Memory.Arena
use libnumakit.Memory.Arena.{Arena}
use libnumakit.Memory.Arena.Lifetime.{Created, create-Created, destroy_lem}
use libnumakit.Memory.Arena.Blocks.{lines, alloc_first}
use libnumakit.Structs.Ring.{
  Ring, cells_from, valid_capacity, init, create, free, place, total_size, sizeof_ring, sizeof_cell,
}
use libnumakit.Structs.Ring.Invariant.{no_cell, IsValid, contents, pow_small}

length-cells_from : (i n : ℕ) → length (cells_from i n) ≡ n
unfolding cells_from
length-cells_from i zero = refl
length-cells_from i (suc n) = ap suc (length-cells_from (i + 1) n)

get_or-cells_from :
    (i n j : ℕ) → j < n → get_or (cells_from i n) j no_cell ≡ record { sequence = i + j; item = 0 }
unfolding cells_from
get_or-cells_from i zero j h = elim h [ ]
get_or-cells_from i (suc n) zero h = ground arith
get_or-cells_from i (suc n) (suc j) h = ground (arith, get_or-cells_from (i + 1) n j (omega arith))

pub init-IsValid : (k : ℕ) (arena : Arena) → 1 ≤ k → k ≤ 62 → IsValid k 0 0 (init (2 ^ k) arena)
unfolding init
init-IsValid k arena lo hi = record {
  wide = lo;
  narrow = hi;
  capacity_eq = refl;
  mask_eq = refl;
  length_eq = length-cells_from 0 (2 ^ k);
  order = omega arith;
  room = omega arith;
  head_eq = refl;
  tail_eq = refl;
  taken = λ p lo hi. absurd (omega arith);
  open_slots = λ p _ below. fresh p below;
}
  where
    fresh :
        (p : ℕ)
        → p < 0 + 2 ^ k
        → (get_or (cells_from 0 (2 ^ k)) (p % 2 ^ k) no_cell).sequence ≡ p % 2 ^ 64
    fresh p below =
        ap (λ j. (get_or (cells_from 0 (2 ^ k)) j no_cell).sequence) (mod-eq_of_lt (omega arith))
        ∙ ap (λ c. c.sequence) (get_or-cells_from 0 (2 ^ k) p (omega arith))
        ∙ omega (arith, pow_small k lo hi)

-- The capacities that are accepted are the powers of two from 2 on.
pub valid_capacity_pow :
    (n : ℕ) → n ≤ 2 ^ 62 → valid_capacity n ≡ true → (k : ℕ) × (1 ≤ k) × (k ≤ 62) × (n ≡ 2 ^ k)
valid_capacity_pow n small e =
    let (k, p) = pow2_of_test n (ground arith) (ground arith) in (k, one_le k p, le_62 k p, p)
  where
    one_le : (k : ℕ) → n ≡ 2 ^ k → 1 ≤ k
    one_le zero p = ground arith
    one_le (suc k) p = omega arith

    le_62 : (k : ℕ) → n ≡ 2 ^ k → k ≤ 62
    le_62 k p = elim (dec_lt 62 k) [
      | yes big ↦
          absurd (omega (arith, pow-le-pow_right {n = 2} (omega arith) {i = 63} {j = k} big))
      | no fine ↦ omega arith
    ]

-- What a call of `create` may leave behind: nothing, or an empty ring in an arena with room for it.
abbrev pub Made : Os → ℕ → World → Option Ring × World → Type 0
Made os n w (none, w') = w' ≡ w
Made os n w (some r, w') =
    ((k : ℕ) × (n ≡ 2 ^ k) × IsValid k 0 0 r × (contents k 0 0 r ≡ []))
    × (sizeof_ring + sizeof_cell * n ≤ r.arena.size)
    × (r.arena.base ≢ map_failed)
    × (w' ≡ mapping r.arena.base r.arena.size ∷ heap r.arena.addr Arena.sizeof_arena ∷ w)
    × (r.arena.base
        ≡ os.mmap (heap r.arena.addr Arena.sizeof_arena ∷ w) r.arena.size r.arena.use_huge)

place_eq :
    (n total : ℕ) (arena : Arena) (w : World)
    → arena.used ≡ 0
    → total + 63 < 2 ^ 63
    → lines total ≤ arena.size
    → place n total (some arena) w ≡ (some (init n (record arena { used = lines total })), w)
unfolding place
place_eq n total arena w fresh small fits = ground (arith, alloc_first arena total fresh small fits)

init-IsValid_of :
    (n k : ℕ) (arena : Arena)
    → n ≡ 2 ^ k
    → 1 ≤ k
    → k ≤ 62
    → (k : ℕ) × (n ≡ 2 ^ k) × IsValid k 0 0 (init n arena) × (contents k 0 0 (init n arena) ≡ [])
init-IsValid_of n k arena p lo hi =
    (k, p, subst (λ m. IsValid k 0 0 (init m arena)) (sym p) (init-IsValid k arena lo hi), refl)

place-Made :
    (os : Os) (n k : ℕ) (w : World) (made : Option Arena) (w' : World)
    → n ≤ 2 ^ 58
    → n ≡ 2 ^ k
    → 1 ≤ k
    → k ≤ 62
    → Created os (total_size n) w (made, w')
    → Made os n w (place n (total_size n) made w')
place-Made os n k w none w' small p lo hi c = unfold place in c
place-Made os n k w (some arena) w' small p lo hi (live, mapped, fresh, size, from) =
    subst (Made os n w) (sym (place_eq n (total_size n) arena w' fresh (omega arith) fits)) (
      unfold init in
      (
        init-IsValid_of n k (record arena { used = lines (total_size n) }) p lo hi,
        omega (arith, fits),
        mapped,
        live,
        from,
      ))
  where
    fits : lines (total_size n) ≤ arena.size
    fits = omega (arith, size, align_up_huge (total_size n) (omega arith))

-- For at most 2^58 cells, `create` makes an empty valid ring of the capacity asked for, a power of
-- two, in an arena that has room for all its cells, or returns NULL and leaves nothing behind.
pub create-Made : (os : Os) (node n : ℕ) (w : World) → n ≤ 2 ^ 58 → Made os n w (create os node n w)
unfolding create
create-Made os node n w small = elim (Bool-cases (valid_capacity n)) [
  | inl good ↦
      let (k, lo, hi, p) = valid_capacity_pow n (omega arith) good in
      let total = total_size n in
      rw good (
        place-Made os n k w (Arena.create os node total w).0 (Arena.create os node total w).1 small
          p lo hi (create-Created os node total w))
  | inr bad ↦ rw bad refl
]

-- For at most 2^58 cells and a mapping that is not at 0, `free` of a ring gives back what `create`
-- acquired, and nothing else.
pub free-create :
    (os : Os) (node n : ℕ) (w w' : World) (r : Ring)
    → n ≤ 2 ^ 58
    → r.arena.base ≢ 0
    → create os node n w ≡ (some r, w')
    → free r w' ≡ w
unfolding free
free-create os node n w w' r small nonzero e =
    let m : Made os n w (some r, w') = subst (Made os n w) e (create-Made os node n w small) in
    rw m.3 (destroy_lem r.arena w nonzero m.2)

place-too_small :
    (os : Os) (n : ℕ) (w : World) (made : Option Arena) (w' u : World) (r : Ring)
    → 0 < n
    → n % 2 ^ 60 ≡ 0
    → Created os (total_size n) w (made, w')
    → place n (total_size n) made w' ≡ (some r, u)
    → r.arena.size < sizeof_cell * n
unfolding place init
place-too_small os n w none w' u r pos wide c e = cc
place-too_small os n w (some arena) w' u r pos wide (live, mapped, fresh, size, from) e =
    ground
      (arith, alloc_first arena (total_size n) fresh, align_up_huge (total_size n) (omega arith))

-- When a ring of a multiple of 2^60 cells is made, its arena is smaller than the cells that are
-- then written.
pub create-too_small :
    (os : Os) (node n : ℕ) (w w' : World) (r : Ring)
    → 0 < n
    → n % 2 ^ 60 ≡ 0
    → create os node n w ≡ (some r, w')
    → r.arena.size < sizeof_cell * n
unfolding create
create-too_small os node n w w' r pos wide e = elim (Bool-cases (valid_capacity n)) [
  | inl good ↦
      let total = total_size n in
      place-too_small os n w (Arena.create os node total w).0 (Arena.create os node total w).1 w' r
        pos wide (create-Created os node total w) (rw good at e)
  | inr bad ↦ absurd (ground arith)
]

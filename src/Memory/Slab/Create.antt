-- ===== src/Memory/Slab/Create.antt =====
-- nkit_slab_create and nkit_slab_destroy.
use libnumakit.Prelude.{
  ℕ, ◌+◌, ◌*◌, ◌^◌, ◌%◌, ◌≤◌, ◌<◌, ◌≡◌, ◌≢◌, zero, suc, Bool, Option, none, some, List, [], ◌∷◌,
  ◌++◌, length, length-append, arith, ◌∙◌, ap, sym, refl, ◌==◌, add64, mul64, align_up,
  align_up_line, align_up_huge, Bool-cases, inl, inr,
}
use mathlib.Core.Path.{subst}
use mathlib.Core.List.{
  append-nil, append_assoc, Mem, Nodup, Nodup-nil, Nodup-cons, mem-cons, not-mem-nil,
}
use mathlib.Core.Logic.Or
use mathlib.Core.HLevel.{⊥_prop}
use mathlib.Core.List.Perm
use native.Mathlib.Nat.{mul-le-mul_right}
use libnumakit.Memory.Os.{Os, World, mapping, heap, map_failed}
use libnumakit.Memory.Arena.{Arena, sizeof_arena}
use libnumakit.Memory.Arena.Lifetime.{Created, create-Created, destroy_lem}
use libnumakit.Memory.Arena.Blocks.{lines, alloc_first, alloc_lem}
use libnumakit.Structs.Ring
use libnumakit.Structs.Ring.{Ring, first_try, valid_capacity}
use libnumakit.Structs.Ring.Create.{Made, create-Made}
use libnumakit.Structs.Ring.Queue.{Holds, SamePlace, push_room}
use libnumakit.Memory.Slab.{Slab, sizeof_slab, fill, populate, carve, create, destroy}
use libnumakit.Memory.Slab.Ownership.{Owned}

-- The addresses of `n` blocks, from block number `i` on.
abbrev pub blocks : ℕ → ℕ → ℕ → ℕ → List ℕ
blocks base size i zero = []
blocks base size i (suc n) = (base + i * size) ∷ blocks base size (i + 1) n

pub length-blocks : (base size i n : ℕ) → length (blocks base size i n) ≡ n
length-blocks base size i zero = refl
length-blocks base size i (suc n) = ap suc (length-blocks base size (i + 1) n)

not-mem-blocks : (base size x i n : ℕ) → x < base + i * size → ¬ Mem x (blocks base size i n)
not-mem-blocks base size x i zero below m = not-mem-nil m
not-mem-blocks base size x i (suc n) below m =
    Or.elim ⊥_prop (mem-cons.0 m) (λ e. omega arith)
      (λ later. not-mem-blocks base size x (i + 1) n (omega arith) later)

-- The blocks are distinct.
pub blocks-Nodup : (base size i n : ℕ) → 0 < size → Nodup (blocks base size i n)
blocks-Nodup base size i zero pos = Nodup-nil
blocks-Nodup base size i (suc n) pos = Nodup-cons.1 (
  not-mem-blocks base size (base + i * size) (i + 1) n (omega arith),
  blocks-Nodup base size (i + 1) n pos,
)

-- Filling a ring that has room puts the blocks behind what it holds.
pub fill-Holds :
    (k n i base size : ℕ) (q : List ℕ) (r : Ring)
    → Holds k q r
    → length q + n ≤ 2 ^ k
    → base + (i + n) * size < 2 ^ 64
    → (r' : Ring) × (fill n i base size r ≡ some r')
      × Holds k (q ++ blocks base size i n) r'
      × SamePlace r r'
unfolding fill
fill-Holds k zero i base size q r holds room fits = (r, refl, rw append-nil holds, (refl, refl))
fill-Holds k (suc n) i base size q r holds room fits =
    let (r1, ran, holds1, (arena1, capacity1)) =
      push_room first_try refl q (add64 base (mul64 i size)) holds (omega arith) in
    let (r2, ran2, holds2, (arena2, capacity2)) =
      fill-Holds k n (i + 1) base size (q ++ add64 base (mul64 i size) ∷ []) r1 holds1
        (omega (arith, length-append q (add64 base (mul64 i size) ∷ []))) (omega arith) in
    (
      r2,
      rw (ran, fill) ran2,
      subst (λ l. Holds k l r2) regroup holds2,
      (arena2 ∙ arena1, capacity2 ∙ capacity1),
    )
  where
    address : add64 base (mul64 i size) ≡ base + i * size
    address = omega arith

    regroup :
        (q ++ add64 base (mul64 i size) ∷ []) ++ blocks base size (i + 1) n
        ≡ q ++ blocks base size i (suc n)
    regroup = rw (append_assoc, address) refl

-- Two blocks of an arena that was just made: the control structure and `n` blocks of `size` bytes.
carve_eq :
    (os : Os) (node n size : ℕ) (a : Arena) (w : World)
    → a.used ≡ 0
    → 64 + size * n ≤ a.size
    → a.base + a.size ≤ 2 ^ 63
    → size * n % 64 ≡ 0
    → carve os node n size (some a) w ≡ (
        let (ring, w') = Ring.create os node n w in
        populate n size (a.base + 64) (record a { used = 64 + size * n }) ring w')
unfolding carve
carve_eq os node n size a w fresh fits room lines64 = ground (
  arith,
  alloc_first a sizeof_slab fresh (omega arith) (omega arith),
  alloc_lem {a = record a { used = 64 }} (size * n) (omega arith) (omega arith),
)

-- What a call of `create` may leave behind: nothing, or a slab of `n` free blocks, one behind the
-- other in its arena, whose `destroy` gives back all that was acquired.
abbrev pub Built : ℕ → ℕ → World → Option (Option Slab × World) → Type 0
Built n size w none = ⊥
Built n size w (some (none, w')) = w' ≡ w
Built n size w (some (some s, w')) =
    ((k : ℕ) × Owned k (blocks s.base size 0 n) [] s)
    × (s.capacity ≡ n)
    × (s.obj_size ≡ size)
    × (s.arena.base < s.base)
    × (s.base + size * n ≤ s.arena.base + s.arena.size)
    × (destroy s w' ≡ w)

populate_eq :
    (n size base : ℕ) (a : Arena) (r r' : Ring) (w : World)
    → fill n 0 base size r ≡ some r'
    → populate n size base a (some r) w
      ≡ some (
        some (record { arena = a; freelist = r'; base = base; obj_size = size; capacity = n }),
        w,
      )
unfolding populate
populate_eq n size base a r r' w ran = ground arith

module _ (os : Os) (mapped : (w : World) (n : ℕ) (h : Bool) → os.mmap w n h ≢ 0)
    (lower_half : (w : World) (n : ℕ) (h : Bool)
      → os.mmap w n h ≢ map_failed
      → os.mmap w n h + n ≤ 2 ^ 63) where
  populate-Built :
      (n size : ℕ) (a : Arena) (w : World) (ring : Option Ring) (w' : World)
      → a.base ≢ 0
      → a.base ≢ map_failed
      → a.used ≡ 64 + size * n
      → a.used ≤ a.size
      → a.base + a.size ≤ 2 ^ 63
      → Made os n (mapping a.base a.size ∷ heap a.addr sizeof_arena ∷ w) (ring, w')
      → Built n size w (populate n size (a.base + 64) a ring w')
  populate-Built n size a w none w' nonzero good used fits room m =
      unfold populate in rw m (destroy_lem a w nonzero good)
  populate-Built n size a w (some r) w' nonzero good used fits room
        ((k, p, v, e), big, rgood, live, from) =
      let (r', ran, holds, same) =
        fill-Holds k n 0 (a.base + 64) size [] r (0, 0, v, e) (omega arith) (omega arith) in
      subst (Built n size w) (sym (populate_eq n size (a.base + 64) a r r' w' ran)) (
        (
          k,
          record {
            free_list = blocks (a.base + 64) size 0 n;
            holds = holds;
            all_there = rw append-nil (Perm.refl _);
            enough = length-blocks (a.base + 64) size 0 n ∙ p;
          },
        ),
        refl,
        refl,
        omega arith,
        omega arith,
        unfold destroy Ring.free in
            rw (same.0, live, destroy_lem r.arena _ (λ z. mapped _ _ _ (sym from ∙ z)) rgood)
              (destroy_lem a w nonzero good),
      )

  carve-Built :
      (node n obj_size : ℕ) (w : World) (arena : Option Arena) (w' : World)
      → n ≤ 2 ^ 58
      → (obj_size + 64) * n ≤ 2 ^ 60
      → 0 < n
      → Created os (add64 sizeof_slab (mul64 (lines obj_size) n)) w (arena, w')
      → Built n (lines obj_size) w (carve os node n (lines obj_size) arena w')
  carve-Built node n obj_size w none w' few small pos c = unfold carve in c
  carve-Built node n obj_size w (some a) w' few small pos (live, good, fresh, size, from) =
      subst (Built n (lines obj_size) w)
        (sym (carve_eq os node n (lines obj_size) a w' fresh fits room whole))
        (populate-Built n (lines obj_size) (record a { used = 64 + lines obj_size * n }) w
          (Ring.create os node n w').0 (Ring.create os node n w').1
          (λ z. mapped _ _ _ (sym from ∙ z)) good refl fits room
          (rw live (create-Made os node n _ few)))
    where
      below : lines obj_size ≤ obj_size + 64
      below = omega arith

      bytes : lines obj_size * n ≤ (obj_size + 64) * n
      bytes = mul-le-mul_right n below

      whole : lines obj_size * n % 64 ≡ 0
      whole = omega arith

      total : add64 sizeof_slab (mul64 (lines obj_size) n) ≡ sizeof_slab + lines obj_size * n
      total = omega (arith, bytes)

      rounded : a.size ≡ align_up (sizeof_slab + lines obj_size * n) 2097152
      rounded = size ∙ ap (λ t. align_up t 2097152) total

      fits : 64 + lines obj_size * n ≤ a.size
      fits = omega (
        arith,
        bytes,
        whole,
        rounded,
        align_up_huge (sizeof_slab + lines obj_size * n) (omega (arith, bytes)),
      )

      room : a.base + a.size ≤ 2 ^ 63
      room = rw from (lower_half _ _ _ (λ z. good (from ∙ z)))

  -- With memory below 2^63, `create` for at most 2^58 blocks that fit in 2^60 bytes always returns:
  -- with a slab of `n` free blocks, whole cache lines inside its arena, which `destroy` gives back
  -- without a rest, or with NULL and nothing left behind.
  pub create-Built :
      (node obj_size n : ℕ) (w : World)
      → n ≤ 2 ^ 58
      → (obj_size + 64) * n ≤ 2 ^ 60
      → obj_size ≤ 2 ^ 60
      → Built n (lines obj_size) w (create os node obj_size n w)
  unfolding create
  create-Built node obj_size n w few small short = elim (Bool-cases (valid_capacity n)) [
    | inl good ↦ elim (Bool-cases (obj_size == 0)) [
      | inl empty ↦ rw (good, empty) refl
      | inr some_size ↦
          rw (good, some_size, align_up_line obj_size (omega arith))
            (carve-Built node n obj_size w _ _ few small (ground arith)
              (create-Created os node _ w))
    ]
    | inr bad ↦ rw bad refl
  ]

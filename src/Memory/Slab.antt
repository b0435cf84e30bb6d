-- ===== src/Memory/Slab.antt =====
-- src/memory/slab.c: equal blocks of one arena, with a ring of the free ones.
pub mod Create
pub mod Ownership
use libnumakit.Prelude.{
  ℕ, ◌+◌, ◌-◌, ◌*◌, zero, suc, Bool, true, false, not, Option, none, some, List, [], ◌∷◌, add64,
  mul64, align_up, leb, ◌==◌, if◌then◌else◌,
}
use libnumakit.Memory.Os.{Os, World, M}
use libnumakit.Memory.Arena
use libnumakit.Memory.Arena.{Arena}
use libnumakit.Structs.Ring
use libnumakit.Structs.Ring.{Ring, first_try, valid_capacity}

abbrev pub slab_align : ℕ
slab_align = 64

-- sizeof(struct nkit_slab_s)
abbrev pub sizeof_slab : ℕ
sizeof_slab = 40

-- `struct nkit_slab_s`
pub record Slab : Type 0 where
  pub arena : Arena
  pub freelist : Ring
  pub base : ℕ
  pub obj_size : ℕ
  pub capacity : ℕ

-- Pushes the slots from number `i` on; `none` where a push does not return.
pub fill : ℕ → ℕ → ℕ → ℕ → Ring → Option Ring
fill zero i base aligned ring = some ring
fill (suc n) i base aligned ring = elim (Ring.push first_try ring (add64 base (mul64 i aligned))) [
  | none ↦ none
  | some (_, ring') ↦ fill n (i + 1) base aligned ring'
]

-- With the free list made: every slot goes into it.
pub populate : ℕ → ℕ → ℕ → Arena → Option Ring → World → Option (Option Slab × World)
populate n aligned base arena none w = some (none, Arena.destroy arena w)
populate n aligned base arena (some ring) w = elim (fill n 0 base aligned ring) [
  | none ↦ none
  | some ring' ↦ some (
    some
        (record { arena = arena; freelist = ring'; base = base; obj_size = aligned; capacity = n }),
    w,
  )
]

-- With the arena made: the control structure, the object block and the free list.
unfoldable pub carve : Os → ℕ → ℕ → ℕ → Option Arena → World → Option (Option Slab × World)
carve os node_id n aligned none w = some (none, w)
carve os node_id n aligned (some arena) w =
    let (control, arena1) = Arena.alloc arena sizeof_slab in
    elim control [
      | none ↦ some (none, Arena.destroy arena1 w)
      | some _ ↦
          let (block, arena2) = Arena.alloc arena1 (mul64 aligned n) in
          elim block [
            | none ↦ some (none, Arena.destroy arena2 w)
            | some base ↦
                let (ring, w') = Ring.create os node_id n w in
                populate n aligned base arena2 ring w'
          ]
    ]

unfoldable pub create : Os → ℕ → ℕ → ℕ → World → Option (Option Slab × World)
create os node_id obj_size n w =
    if not (valid_capacity n)
    then some (none, w)
    else if obj_size == 0
    then some (none, w)
    else let aligned = align_up obj_size slab_align in
      let total = add64 sizeof_slab (mul64 aligned n) in
      let (arena, w') = Arena.create os node_id total w in carve os node_id n aligned arena w'

-- The address, or `none` for NULL.
unfoldable pub alloc : Slab → Option (Option ℕ × Slab)
alloc s = elim (Ring.pop first_try s.freelist) [
  | none ↦ none
  | some (out, ring) ↦ some (out, record s { freelist = ring })
]

-- NULL is 0; whether the ring had room for the block is not looked at.
unfoldable pub free : Slab → ℕ → Option Slab
free s ptr = if ptr == 0 then some s else elim (Ring.push first_try s.freelist ptr) [
  | none ↦ none
  | some (_, ring) ↦ some (record s { freelist = ring })
]

unfoldable pub destroy : Slab → World → World
destroy s w = Arena.destroy s.arena (Ring.free s.freelist w)

unfoldable pub available : Slab → ℕ
available s =
    let head = s.freelist.head in
    let tail = s.freelist.tail in if leb tail head then head - tail else 0

unfoldable pub slab_capacity : Slab → ℕ
slab_capacity s = s.capacity

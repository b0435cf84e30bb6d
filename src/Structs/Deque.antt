-- ===== src/Structs/Deque.antt =====
-- src/structs/deque.c: the work-stealing deque, one call after the other. The counters are of type
-- long and only grow; they stand for numbers, below 2^63. `none` is an access outside an array.
pub mod Items
pub mod Refine
pub mod Owner
pub mod Growth
mod Tests
use libnumakit.Prelude.{
  ℕ, zero, suc, ◌+◌, ◌-◌, ◌*◌, ◌%◌, ◌^◌, Bool, true, false, not, ◌||◌, Option, none, some, List, [],
  ◌∷◌, ltb, leb, ◌==◌, if◌then◌else◌, length, get_elem?, set, replicate, bit_and,
}
use libnumakit.Memory.Os.{Os, World, M, Resource, onnode, release}

-- sizeof(nkit_deque_array_t), sizeof(nkit_deque_t) and the size of a pointer
abbrev pub sizeof_array : ℕ
sizeof_array = 8

abbrev pub sizeof_deque : ℕ
sizeof_deque = 48

abbrev pub sizeof_pointer : ℕ
sizeof_pointer = 8

-- `nkit_deque_array_t`, with its address.
pub record DequeArray : Type 0 where
  pub place : ℕ
  pub size : ℕ
  pub mask : ℕ
  pub buffer : List ℕ

-- `struct nkit_deque_s`, with its address. `num_retired` is the number of retired arrays.
pub record Deque : Type 0 where
  pub addr : ℕ
  pub node_id : ℕ
  pub bottom : ℕ
  pub top : ℕ
  pub array : DequeArray
  pub retired_arrays : ℕ
  pub retired : List DequeArray
  pub retired_capacity : ℕ

abbrev pub array_bytes : ℕ → ℕ
array_bytes size = sizeof_array + sizeof_pointer * size

-- `size` is of type uint32_t, and so is `size - 1`.
pub array_alloc : Os → ℕ → ℕ → M (Option DequeArray)
array_alloc os node_id size w =
    let p = os.numa_alloc w (array_bytes size) node_id in
    if p == 0 then (none, w) else (
      some (record {
        place = p;
        size = size;
        mask = (size + 2 ^ 32 - 1) % 2 ^ 32;
        buffer = replicate size 0;
      }),
      onnode p (array_bytes size) ∷ w,
    )

pub array_free : DequeArray → World → World
array_free a w = release (onnode a.place (array_bytes a.size)) w

-- With the control structure and the array made: room for eight retired arrays, which is not checked.
create_retired : Os → ℕ → ℕ → Option DequeArray × World → Option Deque × World
create_retired os node_id p (none, w) = (none, release (onnode p sizeof_deque) w)
create_retired os node_id p (some a, w) =
    let q = os.numa_alloc w (sizeof_pointer * 8) node_id in
    (
      some (record {
        addr = p;
        node_id = node_id;
        bottom = 0;
        top = 0;
        array = a;
        retired_arrays = q;
        retired = [];
        retired_capacity = 8;
      }),
      if q == 0 then w else onnode q (sizeof_pointer * 8) ∷ w,
    )

pub create : Os → ℕ → ℕ → M (Option Deque)
unfolding create_retired
create os node_id capacity w =
    let p = os.numa_alloc w sizeof_deque node_id in
    if not os.numa_available
    then (none, w)
    else if capacity == 0 || not (bit_and capacity (capacity - 1) == 0)
    then (none, w)
    else if p == 0
    then (none, w)
    else create_retired os node_id p (array_alloc os node_id capacity (onnode p sizeof_deque ∷ w))

free_all : List DequeArray → World → World
free_all [] w = w
free_all (a ∷ rest) w = free_all rest (array_free a w)

pub destroy : Deque → World → World
unfolding free_all
destroy d w = release (onnode d.addr sizeof_deque) (
    release (onnode d.retired_arrays (sizeof_pointer * d.retired_capacity))
      (free_all d.retired (array_free d.array w)))

pub load : DequeArray → ℕ → Option ℕ
load a i = get_elem? a.buffer (bit_and i a.mask)

pub store : DequeArray → ℕ → ℕ → Option DequeArray
store a i x =
    if ltb (bit_and i a.mask) (length a.buffer)
    then some (record a { buffer = set a.buffer (bit_and i a.mask) x })
    else none

-- Copies `n` items from position `i` on.
pub copy_items : ℕ → ℕ → DequeArray → DequeArray → Option DequeArray
copy_items zero i old new = some new
copy_items (suc n) i old new = elim (load old i) [
  | none ↦ none
  | some x ↦ elim (store new i x) [ none ↦ none | some new' ↦ copy_items n (i + 1) old new' ]
]

-- The old array joins the retired ones, whose list grows when it is full; if it cannot, the old array
-- is freed at once. A list that could not be made at first is written to all the same.
pub retire : Os → DequeArray → Deque → World → Option (Deque × World)
retire os old d w =
    let q = os.numa_alloc w (sizeof_pointer * (d.retired_capacity * 2)) d.node_id in
    if length d.retired == d.retired_capacity
    then if q == 0
      then some (d, array_free old w)
      else some (
        record d {
          retired_arrays = q;
          retired = old ∷ d.retired;
          retired_capacity = d.retired_capacity * 2;
        },
        release (onnode d.retired_arrays (sizeof_pointer * d.retired_capacity))
            (onnode q (sizeof_pointer * (d.retired_capacity * 2)) ∷ w),
      )
    else if d.retired_arrays == 0
    then none
    else some (record d { retired = old ∷ d.retired }, w)

-- With the new array asked for; without one, nothing changes.
resize_to : Os → Deque → Option DequeArray × World → Option (Deque × World)
resize_to os d (none, w) = some (d, w)
resize_to os d (some new, w) = elim (copy_items (d.bottom - d.top) d.top d.array new) [
  | none ↦ none
  | some new' ↦ retire os d.array (record d { array = new' }) w
]

pub resize : Os → Deque → World → Option (Deque × World)
unfolding resize_to
resize os d w = resize_to os d (array_alloc os d.node_id (d.array.size * 2 % 2 ^ 32) w)

-- Stores an item at the bottom, if there is room.
pub put : ℕ → Deque → World → Option (Bool × Deque × World)
put x d w =
    if leb d.array.size (d.bottom - d.top)
    then some (false, d, w)
    else elim (store d.array d.bottom x) [
      | none ↦ none
      | some a ↦ some (true, record d { array = a; bottom = d.bottom + 1 }, w)
    ]

pub push : Os → ℕ → Deque → World → Option (Bool × Deque × World)
push os x d w =
    if leb d.array.size (d.bottom - d.top)
    then elim (resize os d w) [ none ↦ none | some (d', w') ↦ put x d' w' ]
    else put x d w

-- The owner's pop: `none` inside for an empty deque. The variable `b` of the code is `bottom - 1`, and
-- `bottom` is set back to its old value except where an item that is not the last is taken.
pub pop : Deque → Option (Option ℕ × Deque)
pop d =
    if ltb d.top d.bottom
    then elim (load d.array (d.bottom - 1)) [
      | none ↦ none
      | some x ↦
          if d.top == d.bottom - 1
          then some (some x, record d { top = d.top + 1 })
          else some (some x, record d { bottom = d.bottom - 1 })
    ]
    else some (none, d)

-- A thief's steal that nobody interrupts.
pub steal : Deque → Option (Option ℕ × Deque)
steal d =
    if ltb d.top d.bottom
    then elim (load d.array d.top) [
      | none ↦ none
      | some x ↦ some (some x, record d { top = d.top + 1 })
    ]
    else some (none, d)

pub size : Deque → ℕ
size d = if ltb d.top d.bottom then (d.bottom - d.top) % 2 ^ 32 else 0

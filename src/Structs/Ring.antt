-- ===== src/Structs/Ring.antt =====
-- include/numakit/structs/ring_buffer.h and src/structs/ring_buffer.c: the bounded queue with a
-- sequence number in each cell, as one thread runs it; the machine's weak compare-exchange may fail
-- with no reason, so each round of a loop is given whether it lets the exchange through.
pub mod Invariant
pub mod Slots
pub mod Refine
pub mod Create
pub mod Queue
mod Tests
use libnumakit.Prelude.{
  ℕ, ◌+◌, ◌-◌, ◌*◌, ◌^◌, zero, suc, Bool, true, false, not, ◌&&◌, ◌||◌, Option, none, some, List,
  [], ◌∷◌, bit_and, add64, sub64, mul64, get_elem?, set, ltb, leb, ◌==◌, if◌then◌else◌,
}
use libnumakit.Memory.Os.{Os, World, M}
use libnumakit.Memory.Arena
use libnumakit.Memory.Arena.{Arena}

-- `nkit_cell_t`; `item` is its `data`.
pub record Cell : Type 0 where
  pub sequence : ℕ
  pub item : ℕ

-- `nkit_ring_t` without its padding.
pub record Ring : Type 0 where
  pub head : ℕ
  pub tail : ℕ
  pub capacity : ℕ
  pub mask : ℕ
  pub cells : List Cell
  pub arena : Arena

abbrev pub sizeof_ring : ℕ
sizeof_ring = 384

abbrev pub sizeof_cell : ℕ
sizeof_cell = 16

-- Slot i gets sequence i; a fresh mapping is zero.
pub cells_from : ℕ → ℕ → List Cell
cells_from i zero = []
cells_from i (suc n) = record { sequence = i; item = 0 } ∷ cells_from (i + 1) n

-- Two or more slots, and a power of two.
abbrev pub valid_capacity : ℕ → Bool
valid_capacity n = not (ltb n 2) && bit_and n (n - 1) == 0

unfoldable pub init : ℕ → Arena → Ring
init n arena = record {
  head = 0;
  tail = 0;
  capacity = n;
  mask = n - 1;
  cells = cells_from 0 n;
  arena = arena;
}

-- The part of `create` behind the call of `nkit_arena_create`.
pub place : ℕ → ℕ → Option Arena → M (Option Ring)
place n total none w = (none, w)
place n total (some arena) w =
    let (block, arena') = Arena.alloc arena total in
    elim block [ none ↦ (none, Arena.destroy arena' w) | some p ↦ (some (init n arena'), w) ]

abbrev pub total_size : ℕ → ℕ
total_size n = add64 sizeof_ring (mul64 sizeof_cell n)

unfoldable pub create : Os → ℕ → ℕ → M (Option Ring)
create os node_id n w =
    if not (valid_capacity n)
    then (none, w)
    else let (made, w') = Arena.create os node_id (total_size n) w in place n (total_size n) made w'

unfoldable pub free : Ring → World → World
free r w = Arena.destroy r.arena w

-- What one round of the loop of `push` or `pop` comes to: a return, another round with a fresh copy
-- of the index, or an access outside the array.
pub data Round (A : Type 0) : Type 0 where
  done : A → Ring → Round A
  again : ℕ → Round A
  fault : Round A

-- The sign of `(intptr_t) a - (intptr_t) b`.
abbrev pub is_negative : ℕ → Bool
is_negative d = leb (2 ^ 63) d

-- `atomic_compare_exchange_weak` on a variable that holds `current`.
abbrev pub exchanges : Bool → ℕ → ℕ → Bool
exchanges lucky current expected = lucky && current == expected

pub push_round : Ring → ℕ → ℕ → Bool → Round Bool
push_round r item head lucky = elim (get_elem? r.cells (bit_and head r.mask)) [
  | none ↦ fault
  | some cell ↦
      let diff = sub64 cell.sequence head in
      if diff == 0
      then if exchanges lucky r.head head
        then done true (record r {
          head = add64 head 1;
          cells =
              set r.cells (bit_and head r.mask) (record { sequence = add64 head 1; item = item });
        })
        else again r.head
      else if is_negative diff
      then done false r
      else again r.head
]

pub push_loop : List Bool → Ring → ℕ → ℕ → Option (Bool × Ring)
push_loop [] r item head = none
push_loop (lucky ∷ rest) r item head = elim (push_round r item head lucky) [
  | done b r' ↦ some (b, r')
  | again head' ↦ push_loop rest r item head'
  | fault ↦ none
]

-- `none` where the list of rounds ends before the loop does.
pub push : List Bool → Ring → ℕ → Option (Bool × Ring)
push rounds r item = push_loop rounds r item r.head

-- The result is what goes through `item`, if anything does.
pub pop_round : Ring → ℕ → Bool → Round (Option ℕ)
pop_round r tail lucky = elim (get_elem? r.cells (bit_and tail r.mask)) [
  | none ↦ fault
  | some cell ↦
      let diff = sub64 cell.sequence (add64 tail 1) in
      if diff == 0
      then if exchanges lucky r.tail tail
        then done (some cell.item) (record r {
          tail = add64 tail 1;
          cells =
              set r.cells (bit_and tail r.mask)
                (record { sequence = add64 (add64 tail r.mask) 1; item = cell.item });
        })
        else again r.tail
      else if is_negative diff
      then done none r
      else again r.tail
]

pub pop_loop : List Bool → Ring → ℕ → Option (Option ℕ × Ring)
pop_loop [] r tail = none
pop_loop (lucky ∷ rest) r tail = elim (pop_round r tail lucky) [
  | done x r' ↦ some (x, r')
  | again tail' ↦ pop_loop rest r tail'
  | fault ↦ none
]

pub pop : List Bool → Ring → Option (Option ℕ × Ring)
pop rounds r = pop_loop rounds r r.tail

-- The run in which the first exchange is let through.
abbrev pub first_try : List Bool
first_try = true ∷ []

-- ===== src/Structs/Ring/Slots.antt =====
-- One round of a valid ring: what the cell says, what is stored, and that the invariant is kept.
use libnumakit.Prelude.{
  ℕ, ◌+◌, ◌^◌, ◌%◌, ◌<◌, ◌≡◌, ◌≢◌, Bool, true, false, none, some, bit_and, one-le-pow2, length,
  get_elem?, get_or, set, length-set, get_elem?-eq-get_or, get_or-set_self, get_or-set_ne, arith,
  dec_lt, ◌∙◌, ap, sym, refl,
}
use native.Mathlib.Nat.{mod-lt, add-mod_right}
use libnumakit.Structs.Ring.{Ring, done, again, push_round, pop_round}
use libnumakit.Structs.Ring.Invariant.{no_cell, cell_at, IsValid, slots-ne, slot_eq, pow_small}

-- The ring after an item is put at position `h`, and after the item at position `t` is taken.
abbrev pub put : ℕ → ℕ → Ring → ℕ → Ring
put k h r x = record r {
  head = (h + 1) % 2 ^ 64;
  cells = set r.cells (h % 2 ^ k) (record { sequence = (h + 1) % 2 ^ 64; item = x });
}

abbrev pub take_out : ℕ → ℕ → Ring → Ring
take_out k t r = record r {
  tail = (t + 1) % 2 ^ 64;
  cells =
      set r.cells (t % 2 ^ k)
        (record { sequence = (t + 2 ^ k) % 2 ^ 64; item = (cell_at k r t).item });
}

module _ {k t h : ℕ} {r : Ring} (v : IsValid k t h r) where
  open v use {
    wide, narrow, capacity_eq, mask_eq, length_eq, order, room, head_eq, tail_eq, taken, open_slots,
  }

  slot_in : (p : ℕ) → p % 2 ^ k < length r.cells
  slot_in p = rw length_eq (mod-lt p (one-le-pow2 k))

  -- The code's cell of a wrapped counter is the model's cell of the position.
  lookup_eq :
      (p c : ℕ) → c ≡ p % 2 ^ 64 → get_elem? r.cells (bit_and c r.mask) ≡ some (cell_at k r p)
  lookup_eq p c e =
      ap (λ c. get_elem? r.cells (bit_and c r.mask)) e
      ∙ ap (get_elem? r.cells) (slot_eq k p r.mask narrow mask_eq)
      ∙ get_elem?-eq-get_or r.cells (p % 2 ^ k) no_cell (slot_in p)

  -- At position `t + 2 ^ k` the ring is back at the slot of `t`.
  turn : cell_at k r (t + 2 ^ k) ≡ cell_at k r t
  turn = ap (λ i. get_or r.cells i no_cell) (add-mod_right t (2 ^ k))

  pub push_round-full :
      (x : ℕ) (lucky : Bool) → h ≡ t + 2 ^ k → push_round r x r.head lucky ≡ done false r
  unfolding push_round
  push_round-full x lucky full =
      rw (lookup_eq h r.head head_eq, push_round)
        (ground (
          arith,
          ap (λ p. (cell_at k r p).sequence) full ∙ ap (λ c. c.sequence) turn,
          taken t (omega arith) (omega (arith, one-le-pow2 k)),
          pow_small k wide narrow,
        ))

  pub push_round-room :
      (x : ℕ) → h < t + 2 ^ k → push_round r x r.head true ≡ done true (put k h r x)
  unfolding push_round
  push_round-room x below =
      rw (lookup_eq h r.head head_eq, push_round)
        (ground (
          arith,
          open_slots h (omega arith) below,
          sym (ap (λ c. bit_and c r.mask) head_eq),
          slot_eq k h r.mask narrow mask_eq,
        ))

  pub push_round-unlucky : (x : ℕ) → h < t + 2 ^ k → push_round r x r.head false ≡ again r.head
  unfolding push_round
  push_round-unlucky x below =
      rw (lookup_eq h r.head head_eq, push_round) (ground (arith, open_slots h (omega arith) below))

  pub pop_round-empty : (lucky : Bool) → h ≡ t → pop_round r r.tail lucky ≡ done none r
  unfolding pop_round
  pop_round-empty lucky empty =
      rw (lookup_eq t r.tail tail_eq, pop_round)
        (ground (arith, open_slots t (omega arith) (omega (arith, one-le-pow2 k))))

  pub pop_round-some :
      t < h → pop_round r r.tail true ≡ done (some (cell_at k r t).item) (take_out k t r)
  unfolding pop_round
  pop_round-some below =
      rw (lookup_eq t r.tail tail_eq, pop_round)
        (ground (
          arith,
          taken t (omega arith) below,
          ap (λ c. bit_and c r.mask) tail_eq,
          slot_eq k t r.mask narrow mask_eq,
          mask_eq,
          pow_small k wide narrow,
        ))

  pub pop_round-unlucky : t < h → pop_round r r.tail false ≡ again r.tail
  unfolding pop_round
  pop_round-unlucky below =
      rw (lookup_eq t r.tail tail_eq, pop_round) (ground (arith, taken t (omega arith) below))

  pub cell_at-put_self :
      (x : ℕ) → cell_at k (put k h r x) h ≡ record { sequence = (h + 1) % 2 ^ 64; item = x }
  cell_at-put_self x = get_or-set_self r.cells (h % 2 ^ k) _ no_cell (slot_in h)

  pub cell_at-put_ne : (x p : ℕ) → h % 2 ^ k ≢ p % 2 ^ k → cell_at k (put k h r x) p ≡ cell_at k r p
  cell_at-put_ne x p ne = get_or-set_ne r.cells (h % 2 ^ k) (p % 2 ^ k) _ no_cell ne

  pub put-IsValid : (x : ℕ) → h < t + 2 ^ k → IsValid k t (h + 1) (put k h r x)
  put-IsValid x below = record {
    wide = wide;
    narrow = narrow;
    capacity_eq = capacity_eq;
    mask_eq = mask_eq;
    length_eq = length-set r.cells (h % 2 ^ k) _ ∙ length_eq;
    order = omega arith;
    room = omega arith;
    head_eq = refl;
    tail_eq = tail_eq;
    taken = λ p lo hi. elim (dec_lt p h) [
      | yes old ↦
          ap (λ c. c.sequence)
            (cell_at-put_ne x p (λ e. slots-ne (2 ^ k) p h old (omega arith) (sym e)))
          ∙ taken p lo old
      | no new ↦
          let last : p ≡ h = omega arith in rw last (ap (λ c. c.sequence) (cell_at-put_self x))
    ];
    open_slots = λ p lo hi.
        ap (λ c. c.sequence) (cell_at-put_ne x p (slots-ne (2 ^ k) h p (omega arith) (omega arith)))
        ∙ open_slots p (omega arith) hi;
  }

  pub cell_at-take_ne :
      (p : ℕ) → t % 2 ^ k ≢ p % 2 ^ k → cell_at k (take_out k t r) p ≡ cell_at k r p
  cell_at-take_ne p ne = get_or-set_ne r.cells (t % 2 ^ k) (p % 2 ^ k) _ no_cell ne

  pub take_out-IsValid : t < h → IsValid k (t + 1) h (take_out k t r)
  take_out-IsValid below = record {
    wide = wide;
    narrow = narrow;
    capacity_eq = capacity_eq;
    mask_eq = mask_eq;
    length_eq = length-set r.cells (t % 2 ^ k) _ ∙ length_eq;
    order = omega arith;
    room = omega arith;
    head_eq = head_eq;
    tail_eq = refl;
    taken = λ p lo hi.
        ap (λ c. c.sequence) (cell_at-take_ne p (slots-ne (2 ^ k) t p (omega arith) (omega arith)))
        ∙ taken p (omega arith) hi;
    open_slots = λ p lo hi. elim (dec_lt p (t + 2 ^ k)) [
      | yes old ↦
          ap (λ c. c.sequence) (cell_at-take_ne p (slots-ne (2 ^ k) t p (omega arith) old))
          ∙ open_slots p lo old
      | no new ↦
          let last : p ≡ t + 2 ^ k = omega arith in
          rw (last, add-mod_right)
            (ap (λ c. c.sequence) (get_or-set_self r.cells (t % 2 ^ k) _ no_cell (slot_in t)))
    ];
  }

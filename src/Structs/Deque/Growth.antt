-- ===== src/Structs/Deque/Growth.antt =====
-- The owner's push, which doubles the array when it is full.
use libnumakit.Prelude.{
  ℕ, suc, ◌+◌, ◌-◌, ◌*◌, ◌%◌, ◌^◌, ◌≤◌, ◌<◌, ◌≡◌, ◌≢◌, ◌⊎◌, refl, ◌∙◌, Bool, true, false, Option,
  none, some, List, [], ◌∷◌, ◌++◌, leb, ◌==◌, length, replicate, length-replicate, one-le-pow2,
  arith, dec_lt, Bool-cases, inl, inr,
}
use native.Mathlib.Nat.{pow-le-pow_right, two-pow-succ}
use libnumakit.Memory.Os.{Os, World, onnode, release}
use libnumakit.Structs.Deque.{
  DequeArray, Deque, array_alloc, array_bytes, copy_items, retire, resize, put, push, resize_to,
  array_free, sizeof_pointer,
}
use libnumakit.Structs.Deque.Items.{Shaped, items_ext, copy_items_lem}
use libnumakit.Structs.Deque.Refine.{Holds, length_of, put_lem}

retire_lem :
    (os : Os) (old : DequeArray) (k : ℕ) (q : List ℕ) (d : Deque) (w : World)
    → d.retired_arrays ≢ 0
    → Holds k q d
    → (d' : Deque) × (w' : World) × (retire os old d w ≡ some (d', w')) × Holds k q d'
unfolding retire
retire_lem os old k q d w made v = elim (Bool-cases (length d.retired == d.retired_capacity)) [
  | inr room ↦
      let there : (d.retired_arrays == 0) ≡ false = ground arith in
      (
        record d { retired = old ∷ d.retired },
        w,
        rw (room, there) refl,
        same_items (record d { retired = old ∷ d.retired }) refl refl refl,
      )
  | inl full ↦
      elim (Bool-cases
        (os.numa_alloc w (sizeof_pointer * (d.retired_capacity * 2)) d.node_id == 0)) [
          | inl failed ↦ (d, array_free old w, rw (full, failed) refl, v)
          | inr grown ↦ (larger, released, rw (full, grown) refl, same_items larger refl refl refl)
        ]
]
  where
    released : World
    released = release (onnode d.retired_arrays (sizeof_pointer * d.retired_capacity)) (
        onnode (os.numa_alloc w (sizeof_pointer * (d.retired_capacity * 2)) d.node_id)
          (sizeof_pointer * (d.retired_capacity * 2))
        ∷ w)

    larger : Deque
    larger = record d {
      retired_arrays = os.numa_alloc w (sizeof_pointer * (d.retired_capacity * 2)) d.node_id;
      retired = old ∷ d.retired;
      retired_capacity = d.retired_capacity * 2;
    }

    same_items :
        (d' : Deque) → d'.array ≡ d.array → d'.top ≡ d.top → d'.bottom ≡ d.bottom → Holds k q d'
    same_items d' ea et eb = record {
      narrow = v.narrow;
      shaped = rw ea v.shaped;
      order = omega (arith, et, eb, v.order);
      room = omega (arith, et, eb, v.room);
      content = rw (ea, et, eb) v.content;
    }

-- The array of a resize.
grown_Shaped :
    (k p n : ℕ)
    → n ≡ 2 ^ k
    → suc k < 32
    → Shaped (suc k) (record {
      place = p;
      size = n * 2 % 2 ^ 32;
      mask = (n * 2 % 2 ^ 32 + 2 ^ 32 - 1) % 2 ^ 32;
      buffer = replicate (n * 2 % 2 ^ 32) 0;
    })
grown_Shaped k p n e h =
    let small : suc k ≤ 31 = omega arith in
    let fits : 2 ^ suc k ≤ 2 ^ 31 = pow-le-pow_right {n = 2} (omega arith) small in
    let pos : 1 ≤ 2 ^ k = one-le-pow2 k in
    let double : 2 ^ k * 2 ≡ 2 ^ suc k = two-pow-double k in
    let same : n * 2 % 2 ^ 32 ≡ 2 ^ suc k = omega (arith, e, double, fits) in
    record {
      size_eq = same;
      mask_eq = omega (arith, same, fits, pos, double);
      length_eq = length-replicate (n * 2 % 2 ^ 32) 0 ∙ same;
    }
  where
    two-pow-double : (k : ℕ) → 2 ^ k * 2 ≡ 2 ^ suc k
    two-pow-double k = omega (arith, two-pow-succ k)

-- Copying the items into an array of twice the size keeps them.
copied_Holds :
    (k : ℕ) (q : List ℕ) (d : Deque) (new : DequeArray)
    → suc k < 32
    → Holds k q d
    → Shaped (suc k) new
    → (new' : DequeArray) × (copy_items (d.bottom - d.top) d.top d.array new ≡ some new')
      × Holds (suc k) q (record d { array = new' })
copied_Holds k q d new small v vn =
    let double : 2 ^ suc k ≡ 2 ^ k * 2 = two-pow-succ k ∙ omega arith in
    let (new', ran, v', copied, _, _) =
      copy_items_lem k (suc k) (d.bottom - d.top) d.top d.array new v.shaped vn
        (omega (arith, v.room, double)) in
    (
      new',
      ran,
      record {
        narrow = small;
        shaped = v';
        order = v.order;
        room = omega (arith, v.room, double);
        content = items_ext (suc k) k new' d.array d.top (d.bottom - d.top) copied ∙ v.content;
      },
    )

-- What a push comes to: the item at the back, with room for it in the array or in one of twice the
-- size; or nothing, when there is no memory for that.
abbrev pub Pushed : ℕ → List ℕ → ℕ → Deque → Option (Bool × Deque × World) → Type 0
Pushed k q x d none = ⊥
Pushed k q x d (some (true, d', w')) = (j : ℕ) × (k ≤ j) × (j ≤ suc k) × Holds j (q ++ x ∷ []) d'
Pushed k q x d (some (false, d', w')) = (length q ≡ 2 ^ k) × (d' ≡ d)

resize_cases :
    (os : Os) (k : ℕ) (q : List ℕ) (d : Deque) (w : World)
    → suc k < 32
    → d.retired_arrays ≢ 0
    → Holds k q d
    → ((resize os d w ≡ some (d, w)))
      ⊎ ((d' : Deque) × (w' : World) × (resize os d w ≡ some (d', w')) × Holds (suc k) q d')
unfolding resize resize_to array_alloc
resize_cases os k q d w small made v =
    elim (Bool-cases (os.numa_alloc w (array_bytes (d.array.size * 2 % 2 ^ 32)) d.node_id == 0)) [
      | inl failed ↦ inl (rw failed refl)
      | inr got ↦
          let p = os.numa_alloc w (array_bytes (d.array.size * 2 % 2 ^ 32)) d.node_id in
          let (new', ran, held) =
            copied_Holds k q d (fresh p d.array.size) small v
              (grown_Shaped k p d.array.size v.shaped.size_eq small) in
          let (d', w', retired, held') =
            retire_lem os d.array (suc k) q (record d { array = new' })
              (onnode p (array_bytes (d.array.size * 2 % 2 ^ 32)) ∷ w) made held in
          inr (d', w', rw (got, resize_to, ran) retired, held')
    ]
  where
    fresh : ℕ → ℕ → DequeArray
    fresh p n = record {
      place = p;
      size = n * 2 % 2 ^ 32;
      mask = (n * 2 % 2 ^ 32 + 2 ^ 32 - 1) % 2 ^ 32;
      buffer = replicate (n * 2 % 2 ^ 32) 0;
    }

put_full :
    (x : ℕ) (d : Deque) (w : World)
    → leb d.array.size (d.bottom - d.top) ≡ true
    → put x d w ≡ some (false, d, w)
unfolding put
put_full x d w h = rw h refl

-- A push into a deque with room for it.
pub push-Holds :
    (os : Os) (k : ℕ) (q : List ℕ) (x : ℕ) (d : Deque) (w : World)
    → Holds k q d
    → length q < 2 ^ k
    → (d' : Deque) × (push os x d w ≡ some (true, d', w)) × Holds k (q ++ x ∷ []) d'
unfolding push
push-Holds os k q x d w v room =
    let (d', ran, held) = put_lem k q d x w v room in
    (
      d',
      rw
          (
            not_full d.array.size (d.bottom - d.top) (omega (arith, v.shaped.size_eq, length_of v)),
            ran,
          )
          refl,
      held,
    )
  where
    not_full : (a b : ℕ) → b < a → leb a b ≡ false
    not_full a b h = ground arith

-- `push` on a deque of `2 ^ k` slots, with `k` below 31 and a list of retired arrays that could be
-- made, never faults: the item is behind the others, in an array of the same or of twice the size,
-- or `push` returns false, all slots were taken, and the deque is as it was.
pub push-Pushed :
    (os : Os) (k : ℕ) (q : List ℕ) (x : ℕ) (d : Deque) (w : World)
    → suc k < 32
    → d.retired_arrays ≢ 0
    → Holds k q d
    → Pushed k q x d (push os x d w)
unfolding push
push-Pushed os k q x d w small made v = elim (dec_lt (length q) (2 ^ k)) [
  | yes room ↦
      let (d', ran, held) = put_lem k q d x w v room in
      rw
        (
          not_full d.array.size (d.bottom - d.top) (omega (arith, v.shaped.size_eq, length_of v)),
          ran,
        )
        (k, omega arith, omega arith, held)
  | no full ↦
      let is_full : length q ≡ 2 ^ k = omega (arith, v.room, length_of v) in
      let tested : leb d.array.size (d.bottom - d.top) ≡ true =
        reached d.array.size (d.bottom - d.top) (omega (arith, v.shaped.size_eq, length_of v)) in
      elim (resize_cases os k q d w small made v) [
        | inl stuck ↦ rw (tested, stuck, put_full x d w tested) (is_full, refl)
        | inr (d', w', grown, held) ↦
            let (d'', ran, held') =
              put_lem (suc k) q d' x w' held
                (omega (arith, two-pow-succ k, one-le-pow2 k, is_full)) in
            rw (tested, grown, ran) (suc k, omega arith, omega arith, held')
      ]
]
  where
    not_full : (a b : ℕ) → b < a → leb a b ≡ false
    not_full a b h = ground arith

    reached : (a b : ℕ) → a ≤ b → leb a b ≡ true
    reached a b h = ground arith

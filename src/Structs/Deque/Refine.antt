-- ===== src/Structs/Deque/Refine.antt =====
-- The deque against a list with two ends: the owner works at the back, a thief at the front.
use libnumakit.Prelude.{
  ℕ, suc, ◌+◌, ◌-◌, ◌^◌, ◌≤◌, ◌<◌, ◌≡◌, refl, ap, sym, ◌∙◌, true, false, some, List, [], ◌∷◌, ◌++◌,
  leb, length, arith, lt→ltb,
}
use libnumakit.Memory.Os.{World}
use libnumakit.Structs.Deque.{DequeArray, Deque, put, steal}
use libnumakit.Structs.Deque.Items.{
  Shaped, at, items, load_lem, stored, store_lem, stored-Shaped, at-stored_self, at-stored_ne,
  items_ext, items_snoc, length-items,
}

-- A deque of `2 ^ k` slots that holds the items `q`, the oldest first.
pub record Holds (k : ℕ) (q : List ℕ) (d : Deque) : Type 0 where
  pub narrow : k < 32
  pub shaped : Shaped k d.array
  pub order : d.top ≤ d.bottom
  pub room : d.bottom ≤ d.top + 2 ^ k
  pub content : items k d.array d.top (d.bottom - d.top) ≡ q

pub length_of : {k : ℕ} {q : List ℕ} {d : Deque} → Holds k q d → d.bottom ≡ d.top + length q
length_of {k} {q} {d} v =
    omega
      (arith, v.order, sym (length-items k d.array d.top (d.bottom - d.top)) ∙ ap length v.content)

-- The position of the item at the front, and of the item at the back.
pub content_of :
    {k : ℕ} {q : List ℕ} {d : Deque} → Holds k q d → items k d.array d.top (length q) ≡ q
content_of {k} {q} {d} v =
    ap (items k d.array d.top) {x = length q} {y = d.bottom - d.top} (omega (arith, length_of v))
    ∙ v.content

-- A store at the bottom of a deque with room.
pub put_lem :
    (k : ℕ) (q : List ℕ) (d : Deque) (x : ℕ) (w : World)
    → Holds k q d
    → length q < 2 ^ k
    → (d' : Deque) × (put x d w ≡ some (true, d', w)) × Holds k (q ++ x ∷ []) d'
unfolding put
put_lem k q d x w v fits = (
  d',
  rw (free, store_lem v.shaped d.bottom x) refl,
  record {
    narrow = v.narrow;
    shaped = stored-Shaped v.shaped d.bottom x;
    order = omega (arith, v.order);
    room = omega (arith, len);
    content =
        ap (items k a' d.top) {x = d.bottom + 1 - d.top} {y = suc (length q)} (omega (arith, len))
        ∙ items_snoc k a' d.top (length q)
        ∙ ap (λ l. l ++ at k a' (d.top + length q) ∷ [])
            (items_ext k k a' d.array d.top (length q) (λ p lo hi.
                (at-stored_ne v.shaped p d.bottom x (omega (arith, len)) (omega (arith, len))).1)
              ∙ content_of v)
        ∙ ap (λ p. q ++ at k a' p ∷ []) {x = d.top + length q} {y = d.bottom} (omega (arith, len))
        ∙ ap (λ y. q ++ y ∷ []) (at-stored_self v.shaped d.bottom x);
  },
)
  where
    a' : DequeArray
    a' = stored v.shaped d.bottom x

    d' : Deque
    d' = record d { array = a'; bottom = d.bottom + 1 }

    len : d.bottom ≡ d.top + length q
    len = length_of v

    free : leb d.array.size (d.bottom - d.top) ≡ false
    free = less d.array.size (d.bottom - d.top) (omega (arith, v.shaped.size_eq, len))
      where
        less : (a b : ℕ) → b < a → leb a b ≡ false
        less a b h = ground arith

-- A thief's `steal` of a deque that holds `x` and then `q` returns `x`, and leaves a deque that
-- holds `q`.
pub steal_lem :
    (k : ℕ) (x : ℕ) (q : List ℕ) (d : Deque)
    → Holds k (x ∷ q) d
    → (d' : Deque) × (steal d ≡ some (some x, d')) × Holds k q d'
unfolding steal
steal_lem k x q d v = (
  record d { top = d.top + 1 },
  rw
      (
        lt→ltb d.top d.bottom (omega (arith, len)),
        load_lem v.shaped d.top,
        ap (first x) (content_of v),
      )
      refl,
  record {
    narrow = v.narrow;
    shaped = v.shaped;
    order = omega (arith, len);
    room = omega (arith, v.room);
    content =
        ap (items k d.array (d.top + 1)) {x = d.bottom - (d.top + 1)} {y = length q}
          (omega (arith, len))
        ∙ ap rest (content_of v);
  },
)
  where
    first : ℕ → List ℕ → ℕ
    first d [] = d
    first d (y ∷ l) = y

    rest : List ℕ → List ℕ
    rest [] = []
    rest (y ∷ l) = l

    len : d.bottom ≡ d.top + suc (length q)
    len = length_of v

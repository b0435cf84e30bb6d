-- ===== src/Structs/Deque/Items.antt =====
-- The items of a deque by their positions, under the stores of the code.
use libnumakit.Prelude.{
  ℕ, zero, suc, ◌+◌, ◌-◌, ◌%◌, ◌^◌, ◌≤◌, ◌<◌, ◌≡◌, refl, ap, sym, ◌∙◌, some, List, [], ◌∷◌, ◌++◌,
  length, get_elem?, get_or, set, length-set, get_elem?-eq-get_or, get_or-set_self, get_or-set_ne,
  bit_and, bit_and-ones, one-le-pow2, arith, lt→ltb, ℕ_discrete,
}
use native.Mathlib.Nat.{mod-lt}
use libnumakit.Structs.Ring.Invariant.{slots-ne}
use libnumakit.Structs.Deque.{DequeArray, load, store, copy_items}

-- An array of `2 ^ k` slots.
pub record Shaped (k : ℕ) (a : DequeArray) : Type 0 where
  pub size_eq : a.size ≡ 2 ^ k
  pub mask_eq : a.mask ≡ 2 ^ k - 1
  pub length_eq : length a.buffer ≡ 2 ^ k

-- The item of position `p`, of the positions that are counted without end.
abbrev pub at : ℕ → DequeArray → ℕ → ℕ
at k a p = get_or a.buffer (p % 2 ^ k) 0

abbrev pub items : ℕ → DequeArray → ℕ → ℕ → List ℕ
items k a p zero = []
items k a p (suc n) = at k a p ∷ items k a (p + 1) n

module _ {k : ℕ} {a : DequeArray} (v : Shaped k a) where
  slot : (p : ℕ) → bit_and p a.mask ≡ p % 2 ^ k
  slot p = ap (bit_and p) v.mask_eq ∙ bit_and-ones k p

  slot_in : (p : ℕ) → p % 2 ^ k < length a.buffer
  slot_in p = rw v.length_eq (mod-lt p (one-le-pow2 k))

  pub load_lem : (p : ℕ) → load a p ≡ some (at k a p)
  unfolding load
  load_lem p =
      ap (get_elem? a.buffer) (slot p) ∙ get_elem?-eq-get_or a.buffer (p % 2 ^ k) 0 (slot_in p)

  -- The array after a store.
  abbrev pub stored : ℕ → ℕ → DequeArray
  stored p x = record a { buffer = set a.buffer (p % 2 ^ k) x }

  pub store_lem : (p x : ℕ) → store a p x ≡ some (stored p x)
  unfolding store
  store_lem p x = rw (slot p, lt→ltb (p % 2 ^ k) (length a.buffer) (slot_in p)) refl

  pub stored-Shaped : (p x : ℕ) → Shaped k (stored p x)
  stored-Shaped p x = record {
    size_eq = v.size_eq;
    mask_eq = v.mask_eq;
    length_eq = length-set a.buffer (p % 2 ^ k) x ∙ v.length_eq;
  }

  pub at-stored_self : (p x : ℕ) → at k (stored p x) p ≡ x
  at-stored_self p x = get_or-set_self a.buffer (p % 2 ^ k) x 0 (slot_in p)

  pub at-stored_ne :
      (p q x : ℕ)
      → p < q
      → q < p + 2 ^ k
      → (at k (stored p x) q ≡ at k a q) × (at k (stored q x) p ≡ at k a p)
  at-stored_ne p q x lt near = (
    get_or-set_ne a.buffer (p % 2 ^ k) (q % 2 ^ k) x 0 (slots-ne (2 ^ k) p q lt near),
    get_or-set_ne a.buffer (q % 2 ^ k) (p % 2 ^ k) x 0 (λ e. slots-ne (2 ^ k) p q lt near (sym e)),
  )

-- Items are compared position by position.
pub items_ext :
    (j k : ℕ) (a b : DequeArray) (p n : ℕ)
    → ((q : ℕ) → p ≤ q → q < p + n → at j a q ≡ at k b q)
    → items j a p n ≡ items k b p n
items_ext j k a b p zero h = refl
items_ext j k a b p (suc n) h =
    rw
      (
        h p (omega arith) (omega arith),
        items_ext j k a b (p + 1) n (λ q lo hi. h q (omega arith) (omega arith)),
      )
      refl

pub items_snoc :
    (k : ℕ) (a : DequeArray) (p n : ℕ) → items k a p (suc n) ≡ items k a p n ++ at k a (p + n) ∷ []
items_snoc k a p zero = ap (λ q. at k a q ∷ []) {x = p} {y = p + 0} (omega arith)
items_snoc k a p (suc n) =
    ap (λ l. at k a p ∷ l)
      (items_snoc k a (p + 1) n
        ∙ ap (λ q. items k a (p + 1) n ++ at k a q ∷ []) {x = p + 1 + n} {y = p + suc n}
            (omega arith))

pub length-items : (k : ℕ) (a : DequeArray) (p n : ℕ) → length (items k a p n) ≡ n
length-items k a p zero = refl
length-items k a p (suc n) = ap suc (length-items k a (p + 1) n)

-- The copy of up to a whole turn of items is exact.
pub copy_items_lem :
    (k j n i : ℕ) (old new : DequeArray)
    → Shaped k old
    → Shaped j new
    → n ≤ 2 ^ j
    → (new' : DequeArray) × (copy_items n i old new ≡ some new')
      × Shaped j new'
      × ((q : ℕ) → i ≤ q → q < i + n → at j new' q ≡ at k old q)
      × ((q : ℕ) → q < i → i + n ≤ q + 2 ^ j → at j new' q ≡ at j new q)
      × (new'.place ≡ new.place)
unfolding copy_items
copy_items_lem k j zero i old new vo vn fits =
    (new, refl, vn, (λ q lo hi. absurd (omega arith)), (λ q lo hi. refl), refl)
copy_items_lem k j (suc n) i old new vo vn fits =
    let x = at k old i in
    let (new', ran, v', copied, others, same) =
      copy_items_lem k j n (i + 1) old (stored vn i x) vo (stored-Shaped vn i x) (omega arith) in
    (
      new',
      rw (copy_items, load_lem vo i, store_lem vn i x) ran,
      v',
      (λ q lo hi. elim (ℕ_discrete q i) [
        | yes here ↦ rw here (others i (omega arith) (omega arith) ∙ at-stored_self vn i x)
        | no away ↦ copied q (omega arith) (omega arith)
      ]),
      (λ q lo hi.
          others q (omega arith) (omega arith) ∙ (at-stored_ne vn q i x lo (omega arith)).1),
      same,
    )

-- ===== src/Memory/Pool/Classes.antt =====
-- The choice of the size class in nkit_mempool_alloc.
use libnumakit.Prelude.{
  ℕ, ◌+◌, ◌≤◌, ◌<◌, ◌≡◌, zero, suc, some, List, [], ◌∷◌, get_elem?, length, arith, leb, refl,
  Bool-cases, inl, inr, ap, ◌∙◌,
}
use libnumakit.Memory.Pool.{size_classes, max_size, find_class, sizeof_header, num_size_classes}
use libnumakit.Memory.Arena.Blocks.{lines}

-- Class number `d` of `cs` is the first that `size` fits in.
pub record First (size : ℕ) (cs : List ℕ) (d : ℕ) : Type 0 where
  pub limit : ℕ
  pub class : get_elem? cs d ≡ some limit
  pub fits : size ≤ limit
  pub smaller : (j x : ℕ) → j < d → get_elem? cs j ≡ some x → x < size

-- The last class of `cs` is large enough.
abbrev Covered : ℕ → List ℕ → Type 0
Covered size [] = ⊥
Covered size (c ∷ []) = size ≤ c
Covered size (c ∷ d ∷ cs) = Covered size (d ∷ cs)

Covered-tail : (size c : ℕ) (cs : List ℕ) → c < size → Covered size (c ∷ cs) → Covered size cs
Covered-tail size c [] over h = omega arith
Covered-tail size c (d ∷ cs) over h = h

First-suc : (size c d : ℕ) (cs : List ℕ) → c < size → First size cs d → First size (c ∷ cs) (suc d)
First-suc size c d cs over f = record {
  limit = f.limit;
  class = f.class;
  fits = f.fits;
  smaller = λ j x lt e. earlier j x lt e;
}
  where
    earlier : (j x : ℕ) → j < suc d → get_elem? (c ∷ cs) j ≡ some x → x < size
    earlier zero x lt e = ground arith
    earlier (suc j) x lt e = f.smaller j x (omega arith) e

find_class-First :
    (size : ℕ) (cs : List ℕ) (i : ℕ)
    → Covered size cs
    → (d : ℕ) × (find_class size cs i ≡ some (i + d)) × First size cs d
unfolding find_class
find_class-First size [] i h = absurd h
find_class-First size (c ∷ cs) i h = elim (Bool-cases (leb size c)) [
  | inl fits ↦ (
    0,
    rw fits (ap some (omega arith)),
    record {
      limit = c;
      class = refl;
      fits = ground arith;
      smaller = λ j x lt e. absurd (omega arith);
    },
  )
  | inr over ↦
      let above : c < size = ground arith in
      let (d, found, f) = find_class-First size cs (i + 1) (Covered-tail size c cs above h) in
      (suc d, rw over (found ∙ ap some (omega arith)), First-suc size c d cs above f)
]

in_range : (cs : List ℕ) (d x : ℕ) → get_elem? cs d ≡ some x → d < length cs
in_range [] d x e = cc
in_range (c ∷ cs) zero x e = omega arith
in_range (c ∷ cs) (suc d) x e = omega (arith, in_range cs d x e)

-- Every size up to the largest class has a class: the first whose limit it does not exceed. A block
-- of a slab of that class has room for it and for the header.
pub find_class-fits :
    (size : ℕ)
    → size ≤ max_size
    → (c : ℕ) × (find_class size size_classes 0 ≡ some c)
      × (c < num_size_classes)
      × ((f : First size size_classes c) × (sizeof_header + size ≤ lines (sizeof_header + f.limit)))
find_class-fits size small =
    let (d, found, f) = find_class-First size size_classes 0 small in
    (
      d,
      found ∙ ap some (omega arith),
      in_range size_classes d f.limit f.class,
      (f, omega (arith, f.fits)),
    )

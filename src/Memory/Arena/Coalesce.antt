-- ===== src/Memory/Arena/Coalesce.antt =====
-- nkit_arena_coalesce: which pages are returned to the kernel.
use libnumakit.Prelude.{
  ℕ, ◌+◌, ◌-◌, ◌*◌, ◌/◌, ◌≤◌, ◌<◌, ◌^◌, ◌%◌, ◌≡◌, ◌≢◌, true, Option, none, some, arith, align_up,
  align_up_lem, if◌then◌else◌, one-le-pow2, mul64,
}
use mathlib.Core.Path.{subst, sym, ap, ◌∙◌}
use Prim.Native.Nat.{◌∣◌}
use native.Mathlib.Nat.{
  div-add-mod', mod-lt, dvd-mul_left, dvd-add, dvd-sub, dvd_of_mod-eq-zero, div-mul_cancel,
  div-eq_of_lt-le, div-eq_of_lt,
}
use libnumakit.Memory.Os.{Os}
use libnumakit.Memory.Arena.{Arena, huge_page_size, unused_pages, advise, coalesce}

abbrev pub page_of : Os → Arena → ℕ
page_of os a = if a.use_huge then huge_page_size else os.page_size

-- The pages named by `unused_pages` are the whole pages above the mark: none of them holds a byte
-- in use, they end where the arena ends, and less than a page above the mark is left out.
abbrev pub Returned : Arena → ℕ → Option (ℕ × ℕ × ℕ) → Type 0
Returned a page none = a.size < a.used + page
Returned a page (some (first, pages, p)) =
    (a.base + a.used ≤ first)
    × (first < a.base + a.used + page)
    × (first + pages * p ≡ a.base + a.size)
    × (p ≡ page)

-- The arithmetic of the call, for a mapping of whole pages.
whole_pages :
    (p base used size first : ℕ)
    → 0 < p
    → base % p ≡ 0
    → size % p ≡ 0
    → first ≡ (base + used + (p - 1)) / p * p
    → (base + used ≤ first)
      × (first < base + used + p)
      × (first < base + size
          → ((base + size - first) / p * p ≡ base + size - first) × ((base + size - first) / p ≢ 0))
whole_pages p base used size first pos hb hs e =
    (omega (arith, split, low), omega (arith, split), λ lt. (exact, nonzero lt exact))
  where
    split : (base + used + (p - 1)) / p * p + (base + used + (p - 1)) % p ≡ base + used + (p - 1)
    split = div-add-mod' (base + used + (p - 1)) p

    low : (base + used + (p - 1)) % p < p
    low = mod-lt (base + used + (p - 1)) pos

    of_first : p ∣ first
    of_first = subst (λ t. p ∣ t) (sym e) (dvd-mul_left p ((base + used + (p - 1)) / p))

    exact : (base + size - first) / p * p ≡ base + size - first
    exact =
        div-mul_cancel p
          (dvd-sub p (dvd-add p (dvd_of_mod-eq-zero p hb) (dvd_of_mod-eq-zero p hs)) of_first)

    nonzero :
        first < base + size
        → (base + size - first) / p * p ≡ base + size - first
        → (base + size - first) / p ≢ 0
    nonzero lt h z = omega (arith, sym h ∙ ap (λ t. t * p) z)

advise_lem :
    (os : Os) (a : Arena) (p : ℕ) (found : Option (ℕ × ℕ × ℕ))
    → a.used ≤ a.size
    → 1 ≤ p
    → ((b n : ℕ) → os.madvise b n ≡ true)
    → Returned a p found
    → advise os found ≡ (a.size - a.used) / p
unfolding advise
advise_lem os a p none within pos advised r = sym (div-eq_of_lt (omega arith))
advise_lem os a p (some (first, pages, page)) within pos advised r =
    rw (advised first (mul64 pages page))
      (sym (div-eq_of_lt-le p (omega (arith, exact)) (omega (arith, exact, suc_mul))))
  where
    exact : first + pages * p ≡ a.base + a.size
    exact = subst (λ t. first + pages * t ≡ a.base + a.size) r.3 r.2

    suc_mul : (pages + 1) * p ≡ pages * p + p
    suc_mul = omega arith

module _ (os : Os) (a : Arena) (k j : ℕ) (page : page_of os a ≡ 2 ^ k) (bits : k + j ≡ 64)
    (mapped : a.base ≢ 0) (within : a.used ≤ a.size) (some_room : a.size ≢ 0)
    (room : a.base + a.size + 2 ^ k ≤ 2 ^ 63) (aligned_base : a.base % 2 ^ k ≡ 0)
    (aligned_size : a.size % 2 ^ k ≡ 0) where
  pub unused_pages-Returned : Returned a (2 ^ k) (unused_pages os a)
  unfolding unused_pages
  unused_pages-Returned = rw page (
      ground (
        arith,
        align_up_lem k j (a.base + a.used) bits (omega (arith, one-le-pow2 k)),
        one-le-pow2 k,
        whole_pages (2 ^ k) a.base a.used a.size (align_up (a.base + a.used) (2 ^ k)),
      ))

  -- For a mapping of whole pages in the lower half of the address space, when the kernel takes the
  -- advice, `coalesce` returns the number of whole pages above the mark.
  pub coalesce_lem : ((p n : ℕ) → os.madvise p n ≡ true) → coalesce os a ≡ (a.size - a.used) / 2 ^ k
  unfolding coalesce
  coalesce_lem advised =
      advise_lem os a (2 ^ k) (unused_pages os a) within (one-le-pow2 k) advised
        unused_pages-Returned

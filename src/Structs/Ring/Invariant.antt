-- ===== src/Structs/Ring/Invariant.antt =====
-- The representation invariant of the ring, over counters that never wrap: `t` items have been
-- taken out and `h` put in since the ring was made.
use libnumakit.Prelude.{
  ℕ, ◌+◌, ◌-◌, ◌^◌, ◌%◌, ◌≤◌, ◌<◌, ◌≡◌, ◌≢◌, zero, suc, List, [], ◌∷◌, bit_and, bit_and-ones,
  two-pow-add, length, get_or, arith, dec_lt, ◌∙◌, ap, sym, refl,
}
use mathlib.Core.Path.{subst}
use Prim.Native.Nat.{◌∣◌}
use native.Mathlib.Nat.{
  mod-mod_of_dvd, dvd-mul_left, mod-lt, mod-eq_of_lt, mod-eq-sub-mod, mod-add-mod, pow-le-pow_right,
}
use libnumakit.Structs.Ring.{Cell, Ring}

abbrev pub no_cell : Cell
no_cell = record { sequence = 0; item = 0 }

-- The cell of position `p`, of the positions that are counted without end.
abbrev pub cell_at : ℕ → Ring → ℕ → Cell
cell_at k r p = get_or r.cells (p % 2 ^ k) no_cell

pub record IsValid (k t h : ℕ) (r : Ring) : Type 0 where
  pub wide : 1 ≤ k
  pub narrow : k ≤ 62
  pub capacity_eq : r.capacity ≡ 2 ^ k
  pub mask_eq : r.mask ≡ 2 ^ k - 1
  pub length_eq : length r.cells ≡ 2 ^ k
  pub order : t ≤ h
  pub room : h ≤ t + 2 ^ k
  pub head_eq : r.head ≡ h % 2 ^ 64
  pub tail_eq : r.tail ≡ t % 2 ^ 64
  pub taken : (p : ℕ) → t ≤ p → p < h → (cell_at k r p).sequence ≡ (p + 1) % 2 ^ 64
  pub open_slots : (p : ℕ) → h ≤ p → p < t + 2 ^ k → (cell_at k r p).sequence ≡ p % 2 ^ 64

-- The items from position `p` on.
abbrev pub items : ℕ → Ring → ℕ → ℕ → List ℕ
items k r p zero = []
items k r p (suc n) = (cell_at k r p).item ∷ items k r (p + 1) n

-- What a valid ring holds, oldest first.
abbrev pub contents : ℕ → ℕ → ℕ → Ring → List ℕ
contents k t h r = items k r t (h - t)

pub length-items : (k : ℕ) (r : Ring) (p n : ℕ) → length (items k r p n) ≡ n
length-items k r p zero = refl
length-items k r p (suc n) = ap suc (length-items k r (p + 1) n)

-- Positions less than a turn apart have different slots.
add-mod-ne : (n p d : ℕ) → 0 < d → d < n → p % n ≢ (p + d) % n
add-mod-ne n p d pos small same = elim (dec_lt (p % n + d) n) [
  | yes below ↦ omega (arith, same ∙ sym (mod-add-mod p n d), mod-eq_of_lt below)
  | no above ↦ omega (
    arith,
    same ∙ sym (mod-add-mod p n d),
    mod-lt p {m = n} (omega arith),
    mod-eq-sub-mod {n = p % n + d} {m = n} (omega arith),
    mod-eq_of_lt {n = p % n + d - n} {m = n} (omega (arith, mod-lt p {m = n} (omega arith))),
  )
]

pub slots-ne : (n p q : ℕ) → p < q → q < p + n → p % n ≢ q % n
slots-ne n p q lt near =
    subst (λ s. p % n ≢ s % n) {x = p + (q - p)} {y = q} (omega arith)
      (add-mod-ne n p (q - p) (omega arith) (omega arith))

pow_dvd : (k : ℕ) → k ≤ 62 → 2 ^ k ∣ 2 ^ 64
pow_dvd k h =
    subst (λ t. 2 ^ k ∣ t)
      (sym (two-pow-add (64 - k) k) ∙ ap (λ t. 2 ^ t) {x = 64 - k + k} {y = 64} (omega arith))
      (dvd-mul_left (2 ^ k) (2 ^ (64 - k)))

-- The mask picks the slot of a position, whether or not its counter has wrapped.
pub slot_eq : (k p mask : ℕ) → k ≤ 62 → mask ≡ 2 ^ k - 1 → bit_and (p % 2 ^ 64) mask ≡ p % 2 ^ k
slot_eq k p mask h e =
    ap (bit_and (p % 2 ^ 64)) e
    ∙ bit_and-ones k (p % 2 ^ 64)
    ∙ mod-mod_of_dvd (2 ^ k) p (pow_dvd k h)

pub pow_small : (k : ℕ) → 1 ≤ k → k ≤ 62 → (2 ≤ 2 ^ k) × (2 ^ k ≤ 2 ^ 62)
pow_small k lo hi =
    (pow-le-pow_right {n = 2} (omega arith) lo, pow-le-pow_right {n = 2} (omega arith) hi)

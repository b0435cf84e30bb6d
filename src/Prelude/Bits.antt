-- ===== src/Prelude/Bits.antt =====
-- Masks of machine words as arithmetic: `x & (2^k - 1)`, `x & ~(2^k - 1)` and the test
-- `x & (x - 1)` for a power of two.
use Prim.Native.Nat.{
  ℕ, zero, suc, ◌+◌, ◌-◌, ◌*◌, ◌/◌, ◌%◌, ◌^◌, ◌≤◌, ◌<◌, min, max, bit_and, bit_or, digits,
  bit_and-bitwise, bit_or-bitwise,
}
use mathlib.Core.Path.{◌≡◌, refl, sym, ap, ap₂, ◌∙◌}
use mathlib.Core.WellFounded as Wf
use mathlib.Core.WellFounded.{Acc, WellFounded}
use native.Mathlib.Nat.{
  two-pow-succ, one-le-pow, mod-eq_of_lt, mul-add-mod_self_left, div-add-mod, div-div-eq-div-mul,
  mod-lt, mul-one, mul-add, suc-mul, div-lt_iff_lt-mul,
}
use mathlib.Core.Logic.{◌≢◌}
use native.Mathlib.Decide.{ℕ_discrete}
use native.Mathlib.Omega.{arith}

Acc-below : (k n : ℕ) → n < k → Acc ◌<◌ n
Acc-below zero n h = elim h [ ]
Acc-below (suc k) n h = Acc.intro n (λ m hm. Acc-below k m (omega arith))

pub lt_wf : WellFounded ◌<◌
lt_wf = record { apply = λ n. Acc-below (suc n) n (omega arith) }

-- Both operations at once: fuel beyond the first number makes no difference.
module _ (rest : ℕ → ℕ) (join : ℕ → ℕ → ℕ) where
  extra_digit :
      (fuel x y : ℕ) → x ≤ fuel → digits rest join (suc fuel) x y ≡ digits rest join fuel x y
  extra_digit zero zero y fits = refl
  extra_digit (suc fuel) zero y fits = refl
  extra_digit zero (suc x) y fits = absurd (omega arith)
  extra_digit (suc fuel) (suc x) y fits =
      ap (λ high. high * 2 + join (suc x % 2) (y % 2))
        (extra_digit fuel (suc x / 2) (y / 2) (omega arith))

  digits_fit : (fuel x y : ℕ) → x ≤ fuel → digits rest join fuel x y ≡ digits rest join x x y
  digits_fit zero zero y fits = refl
  digits_fit zero (suc x) y fits = absurd (omega arith)
  digits_fit (suc fuel) x y fits = elim (ℕ_discrete x (suc fuel)) [
    | yes same ↦ rw same refl
    | no less ↦ extra_digit fuel x y (omega arith) ∙ digits_fit fuel x y (omega arith)
  ]

-- The lowest digit of an `&`.
pub bit_and_step : (x y : ℕ) → bit_and x y ≡ bit_and (x / 2) (y / 2) * 2 + min (x % 2) (y % 2)
bit_and_step zero b = omega (arith, bit_and-bitwise 0 b, bit_and-bitwise 0 (b / 2))
bit_and_step (suc a) b =
    bit_and-bitwise (suc a) b
    ∙ ap (λ high. high * 2 + min (suc a % 2) (b % 2))
        (digits_fit (λ _. 0) min a (suc a / 2) (b / 2) (omega arith)
          ∙ sym (bit_and-bitwise (suc a / 2) (b / 2)))

pub bit_and-zero : (a : ℕ) → bit_and a 0 ≡ 0
bit_and-zero a = Wf.induction lt_wf {C = λ n. bit_and n 0 ≡ 0} a λ n ih. halve n ih
  where
    halve : (n : ℕ) → ((m : ℕ) → m < n → bit_and m 0 ≡ 0) → bit_and n 0 ≡ 0
    halve zero ih = refl
    halve (suc n) ih = omega (arith, bit_and_step (suc n) 0, ih (suc n / 2) (omega arith))

pub bit_and_self : (a : ℕ) → bit_and a a ≡ a
bit_and_self a = Wf.induction lt_wf {C = λ n. bit_and n n ≡ n} a λ n ih. halve n ih
  where
    halve : (n : ℕ) → ((m : ℕ) → m < n → bit_and m m ≡ m) → bit_and n n ≡ n
    halve zero ih = refl
    halve (suc n) ih = omega (arith, bit_and_step (suc n) (suc n), ih (suc n / 2) (omega arith))

pub one-le-pow2 : (k : ℕ) → 1 ≤ 2 ^ k
one-le-pow2 k = one-le-pow k 2 (omega arith)

-- `%` by twice a modulus, from its lowest digit.
mod-double : (a m : ℕ) → 0 < m → a % (m + m) ≡ a / 2 % m * 2 + a % 2
mod-double a m h =
    let low : ℕ = a / 2 % m * 2 + a % 2 in
    ap (λ t. t % (m + m)) split
    ∙ mul-add-mod_self_left (m + m) (a / 2 / m) low
    ∙ mod-eq_of_lt (omega (arith, mod-lt (a / 2) h))
  where
    split : a ≡ (m + m) * (a / 2 / m) + (a / 2 % m * 2 + a % 2)
    split = omega (arith, div-add-mod (a / 2) m)

half_ones : (p : ℕ) → 1 ≤ p → (p + p - 1) / 2 ≡ p - 1
half_ones p h = omega arith

-- A mask of `k` low ones is the remainder by `2 ^ k`.
pub bit_and-ones : (k a : ℕ) → bit_and a (2 ^ k - 1) ≡ a % 2 ^ k
bit_and-ones zero a = omega (arith, bit_and-zero a)
bit_and-ones (suc k) a =
    rw
      (
        two-pow-succ k,
        mod-double a (2 ^ k) (one-le-pow2 k),
        bit_and_step,
        half_ones (2 ^ k) (one-le-pow2 k),
        bit_and-ones k (a / 2),
      )
      (omega (arith, one-le-pow2 k))

half_double : (p : ℕ) → (p + p) / 2 ≡ p
half_double p = omega arith

-- A mask with `k` low zeros.
bit_and-shifted : (k a m : ℕ) → bit_and a (m * 2 ^ k) ≡ bit_and (a / 2 ^ k) m * 2 ^ k
bit_and-shifted zero a m =
    ap₂ bit_and {x = a} {y = a / 1} (omega arith) (mul-one m) ∙ sym (mul-one (bit_and (a / 1) m))
bit_and-shifted (suc k) a m =
    rw
      (
        two-pow-succ k,
        mul-add,
        bit_and_step,
        half_double,
        bit_and-shifted k (a / 2) m,
        div-div-eq-div-mul,
        double (2 ^ k),
      )
      (omega arith)
  where
    double : (p : ℕ) → 2 * p ≡ p + p
    double p = omega arith

pub two-pow-add : (k j : ℕ) → 2 ^ (k + j) ≡ 2 ^ k * 2 ^ j
two-pow-add zero j = ap (λ t. 2 ^ t) {x = 0 + j} {y = j} (omega arith) ∙ omega arith
two-pow-add (suc k) j =
    ap (λ t. 2 ^ t) {x = suc k + j} {y = suc (k + j)} (omega arith)
    ∙ rw (two-pow-succ (k + j), two-pow-succ k, two-pow-add k j) (omega arith)

pred-mul : (p q : ℕ) → 1 ≤ p → (p - 1) * q ≡ p * q - q
pred-mul zero q h = elim h [ ]
pred-mul (suc p) q h =
    ap (λ t. t * q) {x = suc p - 1} {y = p} (omega arith) ∙ omega (arith, suc-mul p q)

-- `a & ~(2^k - 1)` in a word of `w` bits rounds down to a multiple of `2 ^ k`.
pub bit_and-clear :
    (w k j a : ℕ) → k + j ≡ w → a < 2 ^ w → bit_and a (2 ^ w - 2 ^ k) ≡ a / 2 ^ k * 2 ^ k
bit_and-clear w k j a e h =
    ap (bit_and a) mask
    ∙ bit_and-shifted k a (2 ^ j - 1)
    ∙ ap (λ t. t * 2 ^ k) (bit_and-ones j (a / 2 ^ k) ∙ mod-eq_of_lt high)
  where
    whole : 2 ^ w ≡ 2 ^ j * 2 ^ k
    whole = ap (λ t. 2 ^ t) {x = w} {y = j + k} (omega arith) ∙ two-pow-add j k

    mask : 2 ^ w - 2 ^ k ≡ (2 ^ j - 1) * 2 ^ k
    mask = omega (arith, whole, pred-mul (2 ^ j) (2 ^ k) (one-le-pow2 j))

    high : a / 2 ^ k < 2 ^ j
    high = (div-lt_iff_lt-mul (one-le-pow2 k)).1 (omega (arith, whole))

half_test : (n : ℕ) → 0 < n → n % 2 ≡ 0 → bit_and n (n - 1) ≡ 0 → bit_and (n / 2) (n / 2 - 1) ≡ 0
half_test n pos even test = omega (
  arith,
  bit_and_step n (n - 1),
  ap (bit_and (n / 2)) {x = (n - 1) / 2} {y = n / 2 - 1} (omega arith),
)

odd_test : (n : ℕ) → n % 2 ≢ 0 → bit_and n (n - 1) ≡ 0 → n ≡ 1
odd_test n odd test = omega (
  arith,
  bit_and_step n (n - 1),
  ap (bit_and (n / 2)) {x = (n - 1) / 2} {y = n / 2} (omega arith),
  bit_and_self (n / 2),
)

-- `n & (n - 1)` is 0 at powers of two only.
pub pow2_of_test : (n : ℕ) → 0 < n → bit_and n (n - 1) ≡ 0 → (k : ℕ) × (n ≡ 2 ^ k)
pow2_of_test n =
    Wf.induction lt_wf {C = λ n. 0 < n → bit_and n (n - 1) ≡ 0 → (k : ℕ) × (n ≡ 2 ^ k)} n
      λ n ih. halve n ih
  where
    halve :
        (n : ℕ)
        → ((m : ℕ) → m < n → 0 < m → bit_and m (m - 1) ≡ 0 → (k : ℕ) × (m ≡ 2 ^ k))
        → 0 < n
        → bit_and n (n - 1) ≡ 0
        → (k : ℕ) × (n ≡ 2 ^ k)
    halve n ih pos test = elim (ℕ_discrete (n % 2) 0) [
      | yes even ↦
          let (k, e) = ih (n / 2) (omega arith) (omega arith) (half_test n pos even test) in
          (suc k, omega (arith, two-pow-succ k))
      | no odd ↦ (0, odd_test n odd test)
    ]

-- The lowest digit of an `|`.
pub bit_or_step : (x y : ℕ) → bit_or x y ≡ bit_or (x / 2) (y / 2) * 2 + max (x % 2) (y % 2)
bit_or_step zero b = omega (arith, bit_or-bitwise 0 b, bit_or-bitwise 0 (b / 2))
bit_or_step (suc a) b =
    bit_or-bitwise (suc a) b
    ∙ ap (λ high. high * 2 + max (suc a % 2) (b % 2))
        (digits_fit (λ d. d) max a (suc a / 2) (b / 2) (omega arith)
          ∙ sym (bit_or-bitwise (suc a / 2) (b / 2)))

pub bit_or-zero : (a : ℕ) → bit_or a 0 ≡ a
bit_or-zero a = Wf.induction lt_wf {C = λ n. bit_or n 0 ≡ n} a λ n ih. halve n ih
  where
    halve : (n : ℕ) → ((m : ℕ) → m < n → bit_or m 0 ≡ m) → bit_or n 0 ≡ n
    halve zero ih = refl
    halve (suc n) ih = omega (arith, bit_or_step (suc n) 0, ih (suc n / 2) (omega arith))

-- `a | 2`.
pub bit_or-two : (a : ℕ) → bit_or a 2 ≡ a / 4 * 4 + 2 + a % 2
bit_or-two a = omega (arith, bit_or_step a 2, bit_or_step (a / 2) 1, bit_or-zero (a / 2 / 2))

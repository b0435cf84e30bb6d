-- ===== src/Prelude/Word.antt =====
-- `size_t` and `uint64_t`: numbers below 2^64 with wrap-around written out.
use Prim.Native.Nat.{ℕ, ◌+◌, ◌-◌, ◌*◌, ◌/◌, ◌%◌, ◌^◌, ◌≤◌, ◌<◌, bit_and}
use mathlib.Core.Path.{◌≡◌, ap, ◌∙◌}
use native.Mathlib.Omega.{arith}
use native.Mathlib.Nat.{mod-eq_of_lt}
use libnumakit.Prelude.Bits.{bit_and-clear, one-le-pow2}

abbrev pub add64 : ℕ → ℕ → ℕ
add64 a b = (a + b) % 2 ^ 64

-- `-` on ℕ stops at 0, so the modulus is added first.
abbrev pub sub64 : ℕ → ℕ → ℕ
sub64 a b = (a + 2 ^ 64 - b) % 2 ^ 64

abbrev pub mul64 : ℕ → ℕ → ℕ
mul64 a b = a * b % 2 ^ 64

-- `~a` in 64 bits.
abbrev pub not64 : ℕ → ℕ
not64 a = 2 ^ 64 - 1 - a

-- `(x + p - 1) & ~(p - 1)`, the round-up that the memory code writes in several places.
unfoldable pub align_up : ℕ → ℕ → ℕ
align_up x p = bit_and (add64 x (p - 1)) (not64 (p - 1))

-- Without wrap-around `align_up` is the next multiple of a power of two.
pub align_up_lem :
    (k j x : ℕ)
    → k + j ≡ 64
    → x + (2 ^ k - 1) < 2 ^ 64
    → align_up x (2 ^ k) ≡ (x + (2 ^ k - 1)) / 2 ^ k * 2 ^ k
unfolding align_up
align_up_lem k j x e h =
    ap (bit_and (add64 x (2 ^ k - 1))) {x = not64 (2 ^ k - 1)} {y = 2 ^ 64 - 2 ^ k}
      (omega (arith, one-le-pow2 k))
    ∙ bit_and-clear 64 k j (add64 x (2 ^ k - 1)) e (omega arith)
    ∙ ap (λ t. t / 2 ^ k * 2 ^ k) (mod-eq_of_lt h)

-- The two granularities that the sources name: the cache line and the huge page.
pub align_up_line : (x : ℕ) → x + 63 < 2 ^ 64 → align_up x 64 ≡ (x + 63) / 64 * 64
align_up_line x h = align_up_lem 6 58 x (omega arith) h

pub align_up_huge :
    (x : ℕ) → x + 2097151 < 2 ^ 64 → align_up x 2097152 ≡ (x + 2097151) / 2097152 * 2097152
align_up_huge x h = align_up_lem 21 43 x (omega arith) h

-- On the last 63 sizes the sum wraps round and the result is 0.
pub align_up_line_wraps : (x : ℕ) → x < 2 ^ 64 → 2 ^ 64 ≤ x + 63 → align_up x 64 ≡ 0
unfolding align_up
align_up_line_wraps x h lo =
    bit_and-clear 64 6 58 (add64 x 63) (omega arith) (omega arith) ∙ omega arith

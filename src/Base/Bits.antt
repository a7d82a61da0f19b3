-- ===== src/Base/Bits.antt =====
-- Single bits of a word, and how `&`, `|` and a one-bit mask act on them.
pub mod Split
use Prim.Native.Nat.{
  ℕ, zero, suc, ◌+◌, ◌*◌, ◌/◌, ◌%◌, ◌^◌, ◌≤◌, ◌<◌, min, max, bit_and, bit_or, digits,
  bit_and-bitwise, bit_or-bitwise,
}
use mathlib.Core.Path.{◌≡◌, ◌∙◌, refl, ap}
use mathlib.Core.Logic.{inl, inr}
use lq_os_lab.Base.Tests.{◌==◌, Bool-cases}
use native.Mathlib.Omega.{arith}
use native.Mathlib.Nat.{pow-suc}

-- `digits` on a first operand within its count of rounds: one round more changes nothing, and so
-- the count may be the operand itself.
module _ (z : ℕ → ℕ) (f : ℕ → ℕ → ℕ) where
  one_more : (n a b : ℕ) → a ≤ n → digits z f (suc n) a b ≡ digits z f n a b
  one_more n zero b h = elim n as (λ k. digits z f (suc k) 0 b ≡ digits z f k 0 b) [
    | zero ↦ refl
    | suc k ↦ refl
  ]
  one_more zero (suc a) b h = absurd (omega arith)
  one_more (suc n) (suc a) b h = rw (one_more n (suc a / 2) (b / 2) (omega arith)) refl

  settled : (n a b : ℕ) → a ≤ n → digits z f n a b ≡ digits z f a a b
  settled zero a b h = let e : a ≡ 0 = omega arith in rw e refl
  settled (suc n) a b h = elim (Bool-cases (a == suc n)) [
    | inl last ↦ let e : a ≡ suc n = ground arith in rw e refl
    | inr less ↦ one_more n a b (ground arith) ∙ settled n a b (ground arith)
  ]

  lowest_digit :
      (a b : ℕ)
      → z b ≡ z (b / 2) * 2 + f 0 (b % 2)
      → digits z f a a b ≡ digits z f (a / 2) (a / 2) (b / 2) * 2 + f (a % 2) (b % 2)
  lowest_digit zero b end = end
  lowest_digit (suc a) b end = rw (← settled a (suc a / 2) (b / 2) (omega arith)) refl

-- The lowest bit and the rest of `a | b` and of `a & b`.
pub bit_or_step : (a b : ℕ) → bit_or a b ≡ bit_or (a / 2) (b / 2) * 2 + max (a % 2) (b % 2)
bit_or_step a b = simp bit_or-bitwise (lowest_digit (λ y. y) max a b (omega arith))

pub bit_and_step : (a b : ℕ) → bit_and a b ≡ bit_and (a / 2) (b / 2) * 2 + min (a % 2) (b % 2)
bit_and_step a b = simp bit_and-bitwise (lowest_digit (λ y. 0) min a b (omega arith))

-- Bit `k` of `a`, as 0 or 1.
unfoldable pub bit : ℕ → ℕ → ℕ
bit zero a = a % 2
bit (suc k) a = bit k (a / 2)

pub bit-le : (k a : ℕ) → bit k a ≤ 1
unfolding bit
bit-le zero a = omega arith
bit-le (suc k) a = bit-le k (a / 2)

pub bit-bit_and : (k a b : ℕ) → bit k (bit_and a b) ≡ min (bit k a) (bit k b)
unfolding bit
bit-bit_and zero a b = omega (arith, bit_and_step a b)
bit-bit_and (suc k) a b =
    let half : bit_and a b / 2 ≡ bit_and (a / 2) (b / 2) = omega (arith, bit_and_step a b) in
    rw half (bit-bit_and k (a / 2) (b / 2))

pub bit-bit_or : (k a b : ℕ) → bit k (bit_or a b) ≡ max (bit k a) (bit k b)
unfolding bit
bit-bit_or zero a b = omega (arith, bit_or_step a b)
bit-bit_or (suc k) a b =
    let half : bit_or a b / 2 ≡ bit_or (a / 2) (b / 2) = omega (arith, bit_or_step a b) in
    rw half (bit-bit_or k (a / 2) (b / 2))

no_digits : (n a : ℕ) → digits (λ y. 0) min n a 0 ≡ 0
no_digits zero a = refl
no_digits (suc n) zero = refl
no_digits (suc n) (suc a) = omega (arith, no_digits n (suc a / 2))

pub bit_and-zero : (a : ℕ) → bit_and a 0 ≡ 0
bit_and-zero a = simp bit_and-bitwise (no_digits a a)

-- A mask of one bit takes that bit.
pub bit_and_one_bit : (k a : ℕ) → bit_and a (2 ^ k) ≡ 2 ^ k * bit k a
unfolding bit
bit_and_one_bit zero a = omega (arith, bit_and_step a 1, bit_and-zero (a / 2))
bit_and_one_bit (suc k) a =
    let half : 2 ^ suc k / 2 ≡ 2 ^ k = omega (arith, pow-suc 2 k) in
    let rest = bit_and_one_bit k (a / 2) in
    omega (
      arith,
      pow-suc 2 k,
      bit_and_step a (2 ^ suc k),
      ap (bit_and (a / 2)) half,
      rest,
      ap (λ (t : ℕ). t * bit k (a / 2)) (pow-suc 2 k),
    )

-- An odd mask keeps the lowest bit.
pub mask_step : (a m : ℕ) → bit_and a (2 * m + 1) ≡ bit_and (a / 2) m * 2 + a % 2
mask_step a m =
    let half : (2 * m + 1) / 2 ≡ m = omega arith in
    omega (arith, bit_and_step a (2 * m + 1), ap (bit_and (a / 2)) half)

-- `a & 7`, the test for alignment to eight bytes.
pub bit_and_seven : (a : ℕ) → bit_and a 7 ≡ a % 8
bit_and_seven a = omega (
  arith,
  mask_step a 3,
  mask_step (a / 2) 1,
  mask_step (a / 2 / 2) 0,
  bit_and-zero (a / 2 / 2 / 2),
)

-- `a & 0xff` is the low byte.
pub bit_and_byte : (a : ℕ) → bit_and a 255 ≡ a % 256
bit_and_byte a = omega (
  arith,
  mask_step a 127,
  mask_step (a / 2) 63,
  mask_step (a / 2 / 2) 31,
  mask_step (a / 2 / 2 / 2) 15,
  mask_step (a / 2 / 2 / 2 / 2) 7,
  bit_and_seven (a / 2 / 2 / 2 / 2 / 2),
)

pub bit_or-shift : (k a b : ℕ) → a < 2 ^ k → bit_or a (b * 2 ^ k) ≡ a + b * 2 ^ k
bit_or-shift zero zero b h = simp bit_or-bitwise (omega arith)
bit_or-shift zero (suc a) b h = absurd (omega arith)
bit_or-shift (suc k) a b h =
    let half : b * 2 ^ suc k / 2 ≡ b * 2 ^ k =
      omega (arith, pow-suc 2 k, ap (λ (t : ℕ). b * t) (pow-suc 2 k)) in
    let even : b * 2 ^ suc k ≡ 2 * (b * 2 ^ k) =
      omega (arith, pow-suc 2 k, ap (λ (t : ℕ). b * t) (pow-suc 2 k)) in
    omega (
      arith,
      bit_or_step a (b * 2 ^ suc k),
      ap (bit_or (a / 2)) half,
      bit_or-shift k (a / 2) b (omega (arith, pow-suc 2 k)),
    )

only_high : (n a : ℕ) → a ≤ n → digits (λ y. y) max n a 0 ≡ a
only_high zero a h = omega arith
only_high (suc n) zero h = refl
only_high (suc n) (suc a) h = omega (arith, only_high n (suc a / 2) (omega arith))

pub bit_or-zero : (a : ℕ) → bit_or a 0 ≡ a
bit_or-zero a = simp bit_or-bitwise (only_high a a (omega arith))

pub bit_or-above : (k a b : ℕ) → b < 2 ^ k → bit_or (a * 2 ^ k) b ≡ a * 2 ^ k + b
bit_or-above zero a zero h = omega (arith, bit_or-zero (a * 2 ^ 0))
bit_or-above zero a (suc b) h = absurd (omega arith)
bit_or-above (suc k) a b h =
    let twice : a * 2 ^ suc k ≡ 2 * (a * 2 ^ k) =
      omega (arith, pow-suc 2 k, ap (λ (t : ℕ). a * t) (pow-suc 2 k)) in
    let half : a * 2 ^ suc k / 2 ≡ a * 2 ^ k = omega arith in
    omega (
      arith,
      bit_or_step (a * 2 ^ suc k) b,
      ap (λ (t : ℕ). bit_or t (b / 2)) half,
      bit_or-above k a (b / 2) (omega (arith, pow-suc 2 k)),
    )

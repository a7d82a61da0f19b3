-- ===== src/Base/Bits/Split.antt =====
-- `&` and `|` act on the high and the low part of a word apart.
use Prim.Native.Nat.{ℕ, zero, suc, ◌+◌, ◌-◌, ◌*◌, ◌/◌, ◌^◌, ◌<◌, bit_and, bit_or}
use mathlib.Core.Path.{◌≡◌, ap}
use native.Mathlib.Omega.{arith}
use native.Mathlib.Nat.{pow-suc}
use lq_os_lab.Base.Bits.{bit_and_step, bit_or_step, bit_and-zero, bit_or-zero, mask_step}

-- A power of two as a factor, halved.
twice : (k a : ℕ) → a * 2 ^ suc k ≡ 2 * (a * 2 ^ k)
twice k a = omega (arith, pow-suc 2 k, ap (λ (t : ℕ). a * t) (pow-suc 2 k))

half : (k a x : ℕ) → (a * 2 ^ suc k + x) / 2 ≡ a * 2 ^ k + x / 2
half k a x = omega (arith, twice k a)

pub bit_and-split :
    (k a b x y : ℕ)
    → x < 2 ^ k
    → y < 2 ^ k
    → bit_and (a * 2 ^ k + x) (b * 2 ^ k + y) ≡ bit_and a b * 2 ^ k + bit_and x y
bit_and-split zero a b x y h g =
    let zx : x ≡ 0 = omega arith in
    let zy : y ≡ 0 = omega arith in
    let ea : a * 2 ^ 0 + 0 ≡ a = omega arith in
    let eb : b * 2 ^ 0 + 0 ≡ b = omega arith in
    rw (zx, zy) (rw (ea, eb) (omega (arith, bit_and-zero 0)))
bit_and-split (suc k) a b x y h g = omega (
  arith,
  bit_and_step (a * 2 ^ suc k + x) (b * 2 ^ suc k + y),
  bit_and_step x y,
  ap (λ (t : ℕ). bit_and t ((b * 2 ^ suc k + y) / 2)) (half k a x),
  ap (bit_and (a * 2 ^ k + x / 2)) (half k b y),
  bit_and-split k a b (x / 2) (y / 2) (omega (arith, pow-suc 2 k)) (omega (arith, pow-suc 2 k)),
  twice k (bit_and a b),
  twice k a,
  twice k b,
)

pub bit_or-split :
    (k a b x y : ℕ)
    → x < 2 ^ k
    → y < 2 ^ k
    → bit_or (a * 2 ^ k + x) (b * 2 ^ k + y) ≡ bit_or a b * 2 ^ k + bit_or x y
bit_or-split zero a b x y h g =
    let zx : x ≡ 0 = omega arith in
    let zy : y ≡ 0 = omega arith in
    let ea : a * 2 ^ 0 + 0 ≡ a = omega arith in
    let eb : b * 2 ^ 0 + 0 ≡ b = omega arith in
    rw (zx, zy) (rw (ea, eb) (omega (arith, bit_or-zero 0)))
bit_or-split (suc k) a b x y h g = omega (
  arith,
  bit_or_step (a * 2 ^ suc k + x) (b * 2 ^ suc k + y),
  bit_or_step x y,
  ap (λ (t : ℕ). bit_or t ((b * 2 ^ suc k + y) / 2)) (half k a x),
  ap (bit_or (a * 2 ^ k + x / 2)) (half k b y),
  bit_or-split k a b (x / 2) (y / 2) (omega (arith, pow-suc 2 k)) (omega (arith, pow-suc 2 k)),
  twice k (bit_or a b),
  twice k a,
  twice k b,
)

-- A mask of `k` ones keeps a word of `k` bits.
pub bit_and-ones : (k x : ℕ) → x < 2 ^ k → bit_and x (2 ^ k - 1) ≡ x
bit_and-ones zero x h = omega (arith, bit_and-zero x)
bit_and-ones (suc k) x h =
    let m : 2 ^ suc k - 1 ≡ 2 * (2 ^ k - 1) + 1 = omega (arith, pow-suc 2 k) in
    rw m
      (omega (arith, mask_step x (2 ^ k - 1), bit_and-ones k (x / 2) (omega (arith, pow-suc 2 k))))

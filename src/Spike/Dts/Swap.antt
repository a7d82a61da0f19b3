-- ===== src/Spike/Dts/Swap.antt =====
-- `bswap` reverses the bytes of a word.
use lq_os_lab.Base.{ℕ, ◌+◌, ◌*◌, ◌/◌, ◌%◌, ◌^◌, ◌<◌, ◌≡◌, ap, arith, bit_and, bit_or}
use lq_os_lab.Base.Memory.{u32_mod}
use lq_os_lab.Base.Bits.{bit_and-zero, bit_or-zero, bit_or-shift}
use lq_os_lab.Base.Bits.Split.{bit_and-split, bit_or-split, bit_and-ones}
use lq_os_lab.Spike.Dts.{bswap}

-- The word with these four bytes, from the highest.
abbrev pub word : ℕ → ℕ → ℕ → ℕ → ℕ
word a b c d = (a * 2 ^ 8 + b) * 2 ^ 16 + (c * 2 ^ 8 + d)

word-and :
    (a b c d p q r s : ℕ)
    → b < 2 ^ 8
    → c * 2 ^ 8 + d < 2 ^ 16
    → d < 2 ^ 8
    → q < 2 ^ 8
    → r * 2 ^ 8 + s < 2 ^ 16
    → s < 2 ^ 8
    → bit_and (word a b c d) (word p q r s)
      ≡ word (bit_and a p) (bit_and b q) (bit_and c r) (bit_and d s)
word-and a b c d p q r s hb hcd hd hq hrs hs = omega (
  arith,
  bit_and-split 16 (a * 2 ^ 8 + b) (p * 2 ^ 8 + q) (c * 2 ^ 8 + d) (r * 2 ^ 8 + s) hcd hrs,
  bit_and-split 8 a p b q hb hq,
  bit_and-split 8 c r d s hd hs,
)

word-or :
    (a b c d p q r s : ℕ)
    → b < 2 ^ 8
    → c * 2 ^ 8 + d < 2 ^ 16
    → d < 2 ^ 8
    → q < 2 ^ 8
    → r * 2 ^ 8 + s < 2 ^ 16
    → s < 2 ^ 8
    → bit_or (word a b c d) (word p q r s)
      ≡ word (bit_or a p) (bit_or b q) (bit_or c r) (bit_or d s)
word-or a b c d p q r s hb hcd hd hq hrs hs = omega (
  arith,
  bit_or-split 16 (a * 2 ^ 8 + b) (p * 2 ^ 8 + q) (c * 2 ^ 8 + d) (r * 2 ^ 8 + s) hcd hrs,
  bit_or-split 8 a p b q hb hq,
  bit_or-split 8 c r d s hd hs,
)

or_left : (a : ℕ) → bit_or 0 a ≡ a
or_left a =
    let e : a * 2 ^ 0 ≡ a = omega arith in
    omega (arith, bit_or-shift 0 0 a (omega arith), ap (bit_or 0) e)

module _ (a b c d : ℕ) (ha : a < 256) (hb : b < 256) (hc : c < 256) (hd : d < 256) where
  even : bit_and (word a b c d) 0x00FF00FF ≡ word 0 b 0 d
  even = omega (
    arith,
    word-and a b c d 0 255 0 255 (omega arith) (omega arith) (omega arith) (omega arith)
        (omega arith) (omega arith),
    bit_and-zero a,
    bit_and-zero c,
    bit_and-ones 8 b (omega arith),
    bit_and-ones 8 d (omega arith),
  )

  odd : bit_and (word a b c d) 0xFF00FF00 ≡ word a 0 c 0
  odd = omega (
    arith,
    word-and a b c d 255 0 255 0 (omega arith) (omega arith) (omega arith) (omega arith)
        (omega arith) (omega arith),
    bit_and-zero b,
    bit_and-zero d,
    bit_and-ones 8 a (omega arith),
    bit_and-ones 8 c (omega arith),
  )

  pairs :
      bit_or
        (bit_and (word a b c d) 0x00FF00FF * 2 ^ 8 % u32_mod)
        (bit_and (word a b c d) 0xFF00FF00 / 2 ^ 8)
      ≡ word b a d c
  pairs =
      let e1 : word 0 b 0 d * 2 ^ 8 % u32_mod ≡ word b 0 d 0 = omega arith in
      let e2 : word a 0 c 0 / 2 ^ 8 ≡ word 0 a 0 c = omega arith in
      rw (even, odd)
        (rw (e1, e2)
          (omega (
            arith,
            word-or b 0 d 0 0 a 0 c (omega arith) (omega arith) (omega arith) (omega arith)
                (omega arith) (omega arith),
            bit_or-zero b,
            bit_or-zero d,
            or_left a,
            or_left c,
          )))

  low : bit_and (word a b c d) 0x0000FFFF ≡ word 0 0 c d
  low = omega (
    arith,
    word-and a b c d 0 0 255 255 (omega arith) (omega arith) (omega arith) (omega arith)
        (omega arith) (omega arith),
    bit_and-zero a,
    bit_and-zero b,
    bit_and-ones 8 c (omega arith),
    bit_and-ones 8 d (omega arith),
  )

  high : bit_and (word a b c d) 0xFFFF0000 ≡ word a b 0 0
  high = omega (
    arith,
    word-and a b c d 255 255 0 0 (omega arith) (omega arith) (omega arith) (omega arith)
        (omega arith) (omega arith),
    bit_and-zero c,
    bit_and-zero d,
    bit_and-ones 8 a (omega arith),
    bit_and-ones 8 b (omega arith),
  )

  halves :
      bit_or
        (bit_and (word a b c d) 0x0000FFFF * 2 ^ 16 % u32_mod)
        (bit_and (word a b c d) 0xFFFF0000 / 2 ^ 16)
      ≡ word c d a b
  halves =
      let e1 : word 0 0 c d * 2 ^ 16 % u32_mod ≡ word c d 0 0 = omega arith in
      let e2 : word a b 0 0 / 2 ^ 16 ≡ word 0 0 a b = omega arith in
      rw (low, high)
        (rw (e1, e2)
          (omega (
            arith,
            word-or c d 0 0 0 0 a b (omega arith) (omega arith) (omega arith) (omega arith)
                (omega arith) (omega arith),
            bit_or-zero c,
            bit_or-zero d,
            or_left a,
            or_left b,
          )))

-- `bswap` reverses the four bytes of a word.
pub bswap-word :
    (a b c d : ℕ) → a < 256 → b < 256 → c < 256 → d < 256 → bswap (word a b c d) ≡ word d c b a
unfolding bswap
bswap-word a b c d ha hb hc hd = rw (pairs a b c d ha hb hc hd) (halves b a d c hb ha hd hc)

-- ===== src/Util/Copy/Fill.antt =====
-- `memset` fills, by words where the address and the length are aligned.
use lq_os_lab.Base.{
  ℕ, zero, suc, ◌+◌, ◌-◌, ◌*◌, ◌/◌, ◌%◌, ◌^◌, ◌<◌, ◌≤◌, ◌≡◌, refl, bit_and, bit_or, true, false,
  ltb, ◌==◌, arith, ◌⊎◌, inl, inr, ◌∙◌, ap, Bool-cases,
}
use lq_os_lab.Base.Memory.{Mem, u64_mod, store8, store64}
use lq_os_lab.Base.Bits.{bit_and_byte, bit_and_seven, bit_or_step, bit_or-shift}
use lq_os_lab.Util.Copy.{word_of, fill_words, fill_bytes, memset}
use lq_os_lab.Util.Copy.Words.{store64-at, store64-other}

-- `m'` is `m` with `n` bytes of value `v` at `d`.
pub record IsFill (m m' : Mem) (d n v : ℕ) : Type 0 where
  pub inside : (i : ℕ) → i < n → m' (d + i) ≡ v
  pub outside : (a : ℕ) → (a < d) ⊎ (d + n ≤ a) → m' a ≡ m a

-- The word that `memset` makes is the byte repeated.
word_of-repeats : (byte : ℕ) → word_of byte ≡ byte % 256 * 0x0101010101010101
unfolding word_of
word_of-repeats byte =
    let b = byte % 256 in
    let small : b < 256 = omega arith in
    let e1 : b * 2 ^ 8 % u64_mod ≡ b * 2 ^ 8 = omega arith in
    let two : bit_or b (b * 2 ^ 8) ≡ b * 0x0101 = omega (arith, bit_or-shift 8 b b (omega arith)) in
    let e2 : b * 0x0101 * 2 ^ 16 % u64_mod ≡ b * 0x0101 * 2 ^ 16 = omega arith in
    let four : bit_or (b * 0x0101) (b * 0x0101 * 2 ^ 16) ≡ b * 0x01010101 =
      omega (arith, bit_or-shift 16 (b * 0x0101) (b * 0x0101) (omega arith)) in
    let e3 : b * 0x01010101 * 2 ^ 16 % u64_mod * 2 ^ 16 % u64_mod ≡ b * 0x01010101 * 2 ^ 32 =
      omega arith in
    let eight : bit_or (b * 0x01010101) (b * 0x01010101 * 2 ^ 32) ≡ b * 0x0101010101010101 =
      omega (arith, bit_or-shift 32 (b * 0x01010101) (b * 0x01010101) (omega arith)) in
    rw (bit_and_byte byte) (rw e1 (rw two (rw e2 (rw four (rw e3 eight)))))

-- Each byte of the word that `memset` stores is the byte.
word_of-byte : (byte i : ℕ) → i < 8 → word_of byte / 2 ^ (8 * i) % 256 ≡ byte % 256
word_of-byte byte i h = rw (word_of-repeats byte) (by_index i h)
  where
    by_index : (i : ℕ) → i < 8 → byte % 256 * 0x0101010101010101 / 2 ^ (8 * i) % 256 ≡ byte % 256
    by_index zero h = omega arith
    by_index (suc zero) h = omega arith
    by_index (suc (suc zero)) h = omega arith
    by_index (suc (suc (suc zero))) h = omega arith
    by_index (suc (suc (suc (suc zero)))) h = omega arith
    by_index (suc (suc (suc (suc (suc zero))))) h = omega arith
    by_index (suc (suc (suc (suc (suc (suc zero)))))) h = omega arith
    by_index (suc (suc (suc (suc (suc (suc (suc zero))))))) h = omega arith
    by_index (suc (suc (suc (suc (suc (suc (suc (suc j)))))))) h = absurd (omega arith)

IsFill-zero : (m : Mem) (d v : ℕ) → IsFill m m d 0 v
IsFill-zero m d v = record { inside = λ i h. absurd (omega arith); outside = λ a h. refl }

-- A fill of the first `a` bytes, and then of the other `b`.
IsFill-then :
    (m m₁ m₂ : Mem) (d a b n v : ℕ)
    → a + b ≡ n
    → IsFill m m₁ d a v
    → IsFill m₁ m₂ (d + a) b v
    → IsFill m m₂ d n v
IsFill-then m m₁ m₂ d a b n v total first rest = record {
  inside = λ i h. elim (Bool-cases (ltb i a)) [
    | inl low ↦ rest.outside (d + i) (ground arith) ∙ first.inside i (ground arith)
    | inr high ↦
        let e : d + i ≡ d + a + (i - a) = ground arith in
        ap m₂ e ∙ rest.inside (i - a) (ground arith)
  ];
  outside = λ x h. rest.outside x (omega arith) ∙ first.outside x (omega arith);
}

store64-IsFill : (m : Mem) (d byte : ℕ) → IsFill m (store64 m d (word_of byte)) d 8 (byte % 256)
store64-IsFill m d byte = record {
  inside = λ i h. store64-at m d (word_of byte) i h ∙ word_of-byte byte i h;
  outside = λ a h. store64-other m d (word_of byte) a h;
}

store8-IsFill : (m : Mem) (d byte : ℕ) → IsFill m (store8 m d byte) d 1 (byte % 256)
unfolding store8
store8-IsFill m d byte = record { inside = λ i h. ground arith; outside = λ a h. ground arith }

fill_bytes-IsFill :
    (f n d byte : ℕ) (m : Mem) → n ≤ f → IsFill m (fill_bytes f (d + n) byte d m) d n (byte % 256)
unfolding fill_bytes
fill_bytes-IsFill zero n d byte m h = let z : n ≡ 0 = omega arith in rw z (IsFill-zero m d _)
fill_bytes-IsFill (suc f) zero d byte m h =
    let e : ltb d (d + 0) ≡ false = ground arith in rw e (IsFill-zero m d _)
fill_bytes-IsFill (suc f) (suc n) d byte m h =
    let m₁ = store8 m d byte in
    let more : ltb d (d + suc n) ≡ true = ground arith in
    let end : d + suc n ≡ d + 1 + n = omega arith in
    let ih = fill_bytes-IsFill f n (d + 1) byte m₁ (omega arith) in
    rw more (rw end (IsFill-then m m₁ _ d 1 n (suc n) _ (omega arith) (store8-IsFill m d byte) ih))

-- `k` words of eight bytes.
fill_words-IsFill :
    (f k d byte : ℕ) (m : Mem)
    → k ≤ f
    → IsFill m (fill_words f (d + 8 * k) (word_of byte) d m) d (8 * k) (byte % 256)
unfolding fill_words
fill_words-IsFill zero k d byte m h = let z : k ≡ 0 = omega arith in rw z (IsFill-zero m d _)
fill_words-IsFill (suc f) zero d byte m h =
    let e : ltb d (d + 8 * 0) ≡ false = ground arith in rw e (IsFill-zero m d _)
fill_words-IsFill (suc f) (suc k) d byte m h =
    let m₁ = store64 m d (word_of byte) in
    let more : ltb d (d + 8 * suc k) ≡ true = ground arith in
    let end : d + 8 * suc k ≡ d + 8 + 8 * k = omega arith in
    let ih = fill_words-IsFill f k (d + 8) byte m₁ (omega arith) in
    rw more (
      rw end
        (IsFill-then m m₁ _ d 8 (8 * k) (8 * suc k) _ (omega arith) (store64-IsFill m d byte) ih))

-- The alignment test holds of both operands.
len-aligned : (dest len : ℕ) → bit_and (bit_or dest len) 7 ≡ 0 → len % 8 ≡ 0
len-aligned dest len h =
    let low : bit_or dest len % 8 ≡ 0 = omega (arith, bit_and_seven (bit_or dest len)) in
    let one = bit_or_step dest len in
    let two = bit_or_step (dest / 2) (len / 2) in
    let three = bit_or_step (dest / 2 / 2) (len / 2 / 2) in omega (arith, one, two, three)

-- `memset` sets `len` bytes to the low byte of its argument, whether it goes by words or by
-- bytes, and changes nothing else.
pub memset-IsFill :
    (dest byte len : ℕ) (m : Mem) → IsFill m (memset dest byte len m) dest len (byte % 256)
unfolding memset
memset-IsFill dest byte len m = elim (Bool-cases (bit_and (bit_or dest len) 7 == 0)) [
  | inl aligned ↦
      let whole : 8 * (len / 8) ≡ len = omega (arith, len-aligned dest len (ground arith)) in
      rw aligned (rw whole at (fill_words-IsFill len (len / 8) dest byte m (omega arith)))
  | inr odd ↦ rw odd (fill_bytes-IsFill len len dest byte m (omega arith))
]

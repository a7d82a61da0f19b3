-- ===== src/Util/Print/Decimal.antt =====
-- The decimal text that util/snprintf.c prints for a number.
use native.Mathlib.Nat.{pow-suc}
use lq_os_lab.Base.{
  ℕ, zero, suc, ◌+◌, ◌-◌, ◌*◌, ◌/◌, ◌%◌, ◌^◌, ◌<◌, ◌≤◌, ◌≡◌, refl, ◌⊎◌, inl, inr, List, [], ◌∷◌,
  ◌++◌, arith, ◌==◌, length, Bool-cases,
}
use lq_os_lab.Util.Print.{count_digits, digits_fuel}
use lq_os_lab.Util.Print.Spec.{digits_text, decimal_text, value}
use lq_os_lab.Util.Print.Pieces.{length-digits_text}

value-append : (t : List ℕ) (acc c : ℕ) → value acc (t ++ c ∷ []) ≡ value acc t * 10 + (c - b'0')
unfolding value
value-append [] acc c = refl
value-append (x ∷ t) acc c = value-append t (acc * 10 + (x - b'0')) c

value-digits_text : (k v : ℕ) → v < 10 ^ k → value 0 (digits_text k v) ≡ v
unfolding digits_text
value-digits_text zero v h = unfold value in omega arith
value-digits_text (suc k) v h = omega (
  arith,
  pow-suc 10 k,
  value-append (digits_text k (v / 10)) 0 (b'0' + v % 10),
  value-digits_text k (v / 10) (omega (arith, pow-suc 10 k)),
)

-- `k` is the number of digits of `v` counted from `d`.
record Counted (v d k : ℕ) : Type 0 where
  grows : d ≤ k
  enough : v < 10 ^ suc (k - d)
  needed : (k ≡ d) ⊎ (10 ^ (k - d) ≤ v)

count_digits-Counted : (f v d : ℕ) → v < 10 ^ f → Counted v d (count_digits f v d)
unfolding count_digits
count_digits-Counted zero v d h = record {
  grows = omega arith;
  enough = let e : d - d ≡ 0 = omega arith in rw e (omega arith);
  needed = inl refl;
}
count_digits-Counted (suc f) v d h = elim (Bool-cases (v / 10 == 0)) [
  | inl done ↦ rw done (record {
    grows = omega arith;
    enough = let e : d - d ≡ 0 = omega arith in rw e (ground arith);
    needed = inl refl;
  })
  | inr more ↦ rw more (
      further (ground arith)
        (count_digits-Counted f (v / 10) (d + 1) (omega (arith, pow-suc 10 f))))
]
  where
    further : {k : ℕ} → 10 ≤ v → Counted (v / 10) (d + 1) k → Counted v d k
    further {k} big c =
        let e : k - d ≡ suc (k - (d + 1)) = omega (arith, c.grows) in
        record {
          grows = omega (arith, c.grows);
          enough = rw e (omega (arith, pow-suc 10 (suc (k - (d + 1))), c.enough));
          needed = inr (
              rw e (elim c.needed [
                | inl last ↦ let z : k - (d + 1) ≡ 0 = omega arith in rw z big
                | inr more ↦ omega (arith, pow-suc 10 (k - (d + 1)))
              ]));
        }

-- Below 2 ^ 63 the decimal text reads back as the number, its length is at least one, and it
-- has no leading zero: a text of more than one digit stands for at least 10 ^ (length - 1).
pub value-decimal_text :
    (v : ℕ)
    → v < 2 ^ 63
    → (value 0 (decimal_text v) ≡ v)
      × (1 ≤ length (decimal_text v))
      × ((length (decimal_text v) ≡ 1) ⊎ (10 ^ (length (decimal_text v) - 1) ≤ v))
unfolding decimal_text
value-decimal_text v h =
    let k = count_digits digits_fuel v 1 in
    let c = count_digits-Counted digits_fuel v 1 (omega arith) in
    let e : suc (k - 1) ≡ k = omega (arith, c.grows) in
    rw (length-digits_text k v) (value-digits_text k v (rw e at c.enough), c.grows, c.needed)

count_digits-le : (f v d : ℕ) → count_digits f v d ≤ f + d
unfolding count_digits
count_digits-le zero v d = omega arith
count_digits-le (suc f) v d = ground (arith, count_digits-le f (v / 10) (d + 1))

pub length-decimal_text : (v : ℕ) → length (decimal_text v) ≤ 21
unfolding decimal_text
length-decimal_text v =
    omega
      (arith, length-digits_text (count_digits digits_fuel v 1) v, count_digits-le digits_fuel v 1)

-- Decimal digits.
abbrev pub IsDigits : List ℕ → Type 0
IsDigits [] = Unit
IsDigits (c ∷ t) = (b'0' ≤ c) × (c ≤ b'9') × IsDigits t

IsDigits-append : (t : List ℕ) (c : ℕ) → IsDigits t → b'0' ≤ c → c ≤ b'9' → IsDigits (t ++ c ∷ [])
IsDigits-append [] c h lo hi = (lo, hi, tt)
IsDigits-append (x ∷ t) c h lo hi = (h.0, h.1, IsDigits-append t c h.2 lo hi)

digits_text-IsDigits : (k v : ℕ) → IsDigits (digits_text k v)
unfolding digits_text
digits_text-IsDigits zero v = tt
digits_text-IsDigits (suc k) v =
    IsDigits-append (digits_text k (v / 10)) (b'0' + v % 10) (digits_text-IsDigits k (v / 10))
      (omega arith) (omega arith)

pub decimal_text-IsDigits : (v : ℕ) → IsDigits (decimal_text v)
unfolding decimal_text
decimal_text-IsDigits v = digits_text-IsDigits (count_digits digits_fuel v 1) v

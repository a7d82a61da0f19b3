-- ===== src/Util/Strings/Atol.antt =====
-- `atol` reads what `vsnprintf` prints for a `%ld`.
use mathlib.Core.Path.{subst}
use lq_os_lab.Base.{
  ℕ, zero, suc, ◌+◌, ◌-◌, ◌*◌, ◌%◌, ◌^◌, ◌<◌, ◌≤◌, ◌≡◌, ◌≢◌, refl, ap, ◌∙◌, sym, true, false, some,
  List, [], ◌∷◌, arith, leb, ltb, ◌==◌, ◌||◌, if◌then◌else◌, length, inl, inr, Bool-cases,
}
use lq_os_lab.Base.Memory.{u64_mod}
use lq_os_lab.Util.Print.Spec.{value, decimal_text, signed_text}
use lq_os_lab.Util.Print.Decimal.{
  IsDigits, decimal_text-IsDigits, value-decimal_text, length-decimal_text,
}
use lq_os_lab.Util.Strings.{
  CharPtr, max_string, skip_spaces, long_bias, add_digit, atol_digits, with_sign, atol,
}
use lq_os_lab.Util.Strings.Lexical.{StandsAt}

add_digit-ok :
    (a c : ℕ)
    → b'0' ≤ c
    → a * 10 + (c - b'0') < 2 ^ 63
    → add_digit (a + long_bias) c ≡ some (a * 10 + (c - b'0') + long_bias)
unfolding add_digit
add_digit-ok a c lo h =
    let e1 : leb (9 * long_bias) (10 * (a + long_bias)) ≡ true = ground arith in
    let e2 : ltb (10 * (a + long_bias)) (9 * long_bias + u64_mod) ≡ true = ground arith in
    let e3 : leb (9 * long_bias + b'0') (10 * (a + long_bias) + c) ≡ true = ground arith in
    let e4 : ltb (10 * (a + long_bias) + c) (9 * long_bias + b'0' + u64_mod) ≡ true =
      ground arith in
    let e5 : 10 * (a + long_bias) + c - b'0' - 9 * long_bias ≡ a * 10 + (c - b'0') + long_bias =
      omega arith in
    rw (e1, e2, e3, e4) (ap (λ (n : ℕ). some n) e5)

value-le : (t : List ℕ) (a : ℕ) → a ≤ value a t
unfolding value
value-le [] a = omega arith
value-le (c ∷ t) a = omega (arith, value-le t (a * 10 + (c - b'0')))

digits-stop : (f : ℕ) (s : CharPtr) (i res : ℕ) → s i ≡ 0 → atol_digits (suc f) s i res ≡ some res
unfolding atol_digits
digits-stop f s i res h = let e : (s i == 0) ≡ true = ground arith in rw (e, atol_digits) refl

digits-next :
    (f : ℕ) (s : CharPtr) (i res res' : ℕ)
    → s i ≢ 0
    → add_digit res (s i) ≡ some res'
    → atol_digits (suc f) s i res ≡ atol_digits f s (i + 1) res'
unfolding atol_digits
digits-next f s i res res' h e =
    let n : (s i == 0) ≡ false = ground arith in rw (n, atol_digits, e) refl

atol_digits-value :
    (f : ℕ) (s : CharPtr) (i a : ℕ) (t : List ℕ)
    → StandsAt s i t
    → IsDigits t
    → length t < f
    → value a t < 2 ^ 63
    → atol_digits f s i (a + long_bias) ≡ some (value a t + long_bias)
unfolding value
atol_digits-value zero s i a t stands d h small = absurd (omega arith)
atol_digits-value (suc f) s i a [] stands d h small = digits-stop f s i (a + long_bias) stands
atol_digits-value (suc f) s i a (c ∷ t) stands d h small =
    let a' = a * 10 + (c - b'0') in
    digits-next f s i (a + long_bias) (a' + long_bias) (λ z. stands.1 (sym stands.0 ∙ z))
      (rw stands.0 (add_digit-ok a c d.0 (omega (arith, small, value-le t a'))))
    ∙ atol_digits-value f s (i + 1) a' t stands.3 d.2 (omega arith) small

skip-none : (s : CharPtr) (c : ℕ) → s 0 ≡ c → c ≢ b' ' → skip_spaces max_string s 0 ≡ some 0
skip-none s c e h = skipped (max_string - 1)
  where
    skipped : (f : ℕ) → skip_spaces (suc f) s 0 ≡ some 0
    skipped f =
        unfold skip_spaces in
        let n : (s 0 == b' ') ≡ false = ground (arith, e) in rw (n, skip_spaces) refl

-- A text that starts with no space.
atol-start :
    (s : CharPtr) (c : ℕ)
    → s 0 ≡ c
    → c ≢ b' '
    → atol s
      ≡ with_sign
          (c == b'-')
          (atol_digits max_string s (if c == b'-' || (c == b'+') then 1 else 0) long_bias)
unfolding atol
atol-start s c e h =
    rw (skip-none s c e h, atol)
      (ap
        (λ d.
          with_sign (d == b'-')
            (atol_digits max_string s (if d == b'-' || (d == b'+') then 1 else 0) long_bias))
        e)

atol-digits :
    (s : CharPtr) (t : List ℕ)
    → StandsAt s 0 t
    → IsDigits t
    → 1 ≤ length t
    → length t ≤ 21
    → value 0 t < 2 ^ 63
    → atol s ≡ some (value 0 t + long_bias)
unfolding with_sign
atol-digits s [] stands d some_digit short small = absurd (omega arith)
atol-digits s (c ∷ t) stands d some_digit short small =
    let e1 : (c == b'-') ≡ false = ground (arith, d.0) in
    let e2 : (c == b'+') ≡ false = ground (arith, d.0) in
    atol-start s c stands.0 (λ z. absurd (omega (arith, d.0)))
    ∙ rw (e1, e2)
        (ap (with_sign false)
          (atol_digits-value max_string s 0 0 (c ∷ t) stands d (omega arith) small))

atol-minus :
    (s : CharPtr) (t : List ℕ)
    → StandsAt s 0 (b'-' ∷ t)
    → IsDigits t
    → length t ≤ 21
    → 0 < value 0 t
    → value 0 t < 2 ^ 63
    → atol s ≡ some (long_bias - value 0 t)
unfolding with_sign
atol-minus s t stands d short big small =
    let e : (value 0 t + long_bias == 0) ≡ false = ground arith in
    let f : u64_mod - (value 0 t + long_bias) ≡ long_bias - value 0 t = omega arith in
    atol-start s b'-' stands.0 (λ z. absurd (omega (arith, z)))
    ∙ ap (with_sign true) (atol_digits-value max_string s 1 0 t stands.3 d (omega arith) small)
    ∙ rw e (ap (λ (n : ℕ). some n) f)

-- `atol` reads back the text that `vsnprintf` prints for a `%ld`: of every 64-bit number but
-- -2 ^ 63, which has no such text.
pub atol-signed_text :
    (s : CharPtr) (v : ℕ) (t : List ℕ)
    → v < u64_mod
    → signed_text v ≡ some t
    → StandsAt s 0 t
    → atol s ≡ some ((v + long_bias) % u64_mod)
unfolding signed_text
atol-signed_text s v t range e stands = elim (Bool-cases (v == 2 ^ 63)) [
  | inl least ↦ absurd (ground (arith, least, e))
  | inr other ↦ elim (Bool-cases (ltb v (2 ^ 63))) [
    | inl positive ↦
        let q : some (decimal_text v) ≡ some t = rw (other, positive) at e in
        let same : t ≡ decimal_text v = ground (arith, q) in
        let (reads, some_digit, no_zero) = value-decimal_text v (ground arith) in
        let lt_bias : v < 2 ^ 63 = ground arith in
        atol-digits s (decimal_text v) (subst (StandsAt s 0) same stands) (decimal_text-IsDigits v)
          some_digit (length-decimal_text v) (omega (arith, reads, positive))
        ∙ ap (λ (n : ℕ). some n) (omega (arith, reads, range, lt_bias))
    | inr negative ↦
        let q : some (b'-' ∷ decimal_text (u64_mod - v)) ≡ some t = rw (other, negative) at e in
        let same : t ≡ b'-' ∷ decimal_text (u64_mod - v) = ground (arith, q) in
        let big : 2 ^ 63 < v = ground arith in
        let (reads, some_digit, no_zero) = value-decimal_text (u64_mod - v) (omega arith) in
        atol-minus s (decimal_text (u64_mod - v)) (subst (StandsAt s 0) same stands)
          (decimal_text-IsDigits (u64_mod - v)) (length-decimal_text (u64_mod - v))
          (omega (arith, reads)) (omega (arith, reads))
        ∙ ap (λ (n : ℕ). some n) (omega (arith, reads, range, big))
  ]
]

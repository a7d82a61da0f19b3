-- ===== src/Util/Print/Pieces.antt =====
-- Each writer of util/snprintf.c appends its text to what the buffer holds.
use mathlib.Core.List.{append-nil, append_assoc}
use native.Mathlib.Nat.{pow-suc, div-div-eq-div-mul}
use lq_os_lab.Base.{
  Bool-cases, inl, inr, ℕ, zero, suc, ◌+◌, ◌-◌, ◌*◌, ◌/◌, ◌%◌, ◌^◌, ◌<◌, ◌≤◌, ◌≡◌, refl, sym, ap,
  ◌∙◌, List, [], ◌∷◌, ◌++◌, arith, ltb, if◌then◌else◌, length, get_or, length-append,
}
use lq_os_lab.Util.Print.{
  Out, update, put, put_string, put_hex, put_digits, put_decimal, hex_digit, count_digits,
  digits_fuel,
}
use lq_os_lab.Util.Print.Spec.{hex_text, digits_text, decimal_text, Holds}

get_or-append_left : (t u : List ℕ) (j : ℕ) → j < length t → get_or (t ++ u) j 0 ≡ get_or t j 0
get_or-append_left [] u j h = absurd (omega arith)
get_or-append_left (x ∷ t) u zero h = refl
get_or-append_left (x ∷ t) u (suc j) h = get_or-append_left t u j (omega arith)

get_or-append_right :
    (t u : List ℕ) (j i : ℕ) → j ≡ length t + i → get_or (t ++ u) j 0 ≡ get_or u i 0
get_or-append_right [] u j i e = let same : j ≡ i = omega arith in ap (λ (k : ℕ). get_or u k 0) same
get_or-append_right (x ∷ t) u zero i e = absurd (omega arith)
get_or-append_right (x ∷ t) u (suc j) i e = get_or-append_right t u j i (omega arith)

get_or-append_last : (t : List ℕ) (c j : ℕ) → j ≡ length t → get_or (t ++ c ∷ []) j 0 ≡ c
get_or-append_last t c j e = get_or-append_right t (c ∷ []) j 0 (omega arith)

four_more : (k : ℕ) → 2 ^ (4 * suc k) ≡ 16 * 2 ^ (4 * k)
four_more k =
    let e : 4 * suc k ≡ suc (suc (suc (suc (4 * k)))) = omega arith in
    rw e (
      omega (
        arith,
        pow-suc 2 (4 * k),
        pow-suc 2 (suc (4 * k)),
        pow-suc 2 (suc (suc (4 * k))),
        pow-suc 2 (suc (suc (suc (4 * k)))),
      ))

shifted_more : (v k : ℕ) → v / 16 / 2 ^ (4 * k) ≡ v / 2 ^ (4 * suc k)
shifted_more v k = rw (four_more k) (div-div-eq-div-mul v 16 (2 ^ (4 * k)))

-- The order of the loop, from the most significant digit.
hex_text-cons : (k v : ℕ) → hex_text (suc k) v ≡ hex_digit (v / 2 ^ (4 * k) % 16) ∷ hex_text k v
unfolding hex_text
hex_text-cons zero v = let same : v / 2 ^ (4 * 0) ≡ v = omega arith in rw same
hex_text-cons (suc k) v =
    rw (← shifted_more v k) (ap (λ t. t ++ hex_digit (v % 16) ∷ []) (hex_text-cons k (v / 16)))

module _ (n : ℕ) (b : ℕ → ℕ) where
  pub put-Holds :
      (t : List ℕ) (c : ℕ) (o : Out) → Holds n b t o → Holds n b (t ++ c ∷ []) (put n c o)
  unfolding put
  put-Holds t c o h = record {
    counts = ground (arith, h.counts, length-append t (c ∷ []));
    inside = λ j p q. ground (
      arith,
      h.counts,
      h.inside j,
      length-append t (c ∷ []),
      get_or-append_left t (c ∷ []) j,
      get_or-append_last t c j,
    );
    outside = λ j p. ground (arith, h.counts, h.outside j);
  }

  pub put_string-Holds :
      (t s : List ℕ) (o : Out) → Holds n b t o → Holds n b (t ++ s) (put_string n s o)
  unfolding put_string
  put_string-Holds t [] o h = rw append-nil h
  put_string-Holds t (c ∷ s) o h =
      rw (sym (append_assoc t (c ∷ []) s))
        (put_string-Holds (t ++ c ∷ []) s (put n c o) (put-Holds t c o h))

  pub put_hex-Holds :
      (t : List ℕ) (k v : ℕ) (o : Out)
      → Holds n b t o
      → Holds n b (t ++ hex_text k v) (put_hex n k v o)
  unfolding put_hex
  put_hex-Holds t zero v o h = unfold hex_text in rw append-nil h
  put_hex-Holds t (suc k) v o h =
      let d = hex_digit (v / 2 ^ (4 * k) % 16) in
      rw (hex_text-cons k v) (
        rw (sym (append_assoc t (d ∷ []) (hex_text k v)))
          (put_hex-Holds (t ++ d ∷ []) k v (put n d o) (put-Holds t d o h)))

record Written (n k pos v : ℕ) (buf r : ℕ → ℕ) : Type 0 where
  before : (j : ℕ) → j < pos → r j ≡ buf j
  digits : (i : ℕ) → i < k → pos + i + 1 < n → r (pos + i) ≡ get_or (digits_text k v) i 0
  beyond : (j : ℕ) → n ≤ j + 1 → r j ≡ buf j
  after : (j : ℕ) → pos + k ≤ j → r j ≡ buf j

pub length-digits_text : (k v : ℕ) → length (digits_text k v) ≡ k
unfolding digits_text
length-digits_text zero v = refl
length-digits_text (suc k) v = omega (
  arith,
  length-append (digits_text k (v / 10)) ((b'0' + v % 10) ∷ []),
  length-digits_text k (v / 10),
)

put_digits-Written :
    (n k pos v : ℕ) (buf : ℕ → ℕ) → Written n k pos v buf (put_digits n k pos v buf)
unfolding put_digits digits_text
put_digits-Written n zero pos v buf = record {
  before = λ j h. refl;
  digits = λ i h. absurd (omega arith);
  beyond = λ j h. refl;
  after = λ j h. refl;
}
put_digits-Written n (suc k) pos v buf =
    let buf' = if ltb (pos + k + 1) n then update buf (pos + k) (b'0' + v % 10) else buf in
    let ih = put_digits-Written n k pos (v / 10) buf' in
    record {
      before = λ j h. ground (arith, ih.before j);
      digits = λ i h p. ground (
        arith,
        ih.digits i,
        ih.after (pos + i),
        length-digits_text k (v / 10),
        get_or-append_left (digits_text k (v / 10)) ((b'0' + v % 10) ∷ []) i,
        get_or-append_last (digits_text k (v / 10)) (b'0' + v % 10) i,
      );
      beyond = λ j h. ground (arith, ih.beyond j);
      after = λ j h. ground (arith, ih.after j);
    }

digits-Holds :
    (n : ℕ) (b : ℕ → ℕ) (t : List ℕ) (k v : ℕ) (o : Out)
    → Holds n b t o
    → Holds n b
        (t ++ digits_text k v)
        (record { buf = put_digits n k o.pos v o.buf; pos = o.pos + k })
digits-Holds n b t k v o h =
    let w = put_digits-Written n k o.pos v o.buf in
    record {
      counts = omega (arith, h.counts, length-append t (digits_text k v), length-digits_text k v);
      inside = λ j p q. elim (Bool-cases (ltb j o.pos)) [
        | inl old ↦
            ground
              (arith, w.before j, h.counts, h.inside j, get_or-append_left t (digits_text k v) j)
        | inr new ↦
            let i = j - length t in
            let e : j ≡ o.pos + i = ground (arith, h.counts) in
            let short : i < k =
              ground (arith, length-append t (digits_text k v), length-digits_text k v) in
            ap (put_digits n k o.pos v o.buf) e
            ∙ w.digits i short (omega arith)
            ∙ sym (get_or-append_right t (digits_text k v) j i (omega (arith, h.counts)))
      ];
      outside = λ j p. w.beyond j p ∙ h.outside j p;
    }

pub put_decimal-Holds :
    (n : ℕ) (b : ℕ → ℕ) (t : List ℕ) (v : ℕ) (o : Out)
    → Holds n b t o
    → Holds n b (t ++ decimal_text v) (put_decimal n v o)
unfolding put_decimal decimal_text
put_decimal-Holds n b t v o h = digits-Holds n b t (count_digits digits_fuel v 1) v o h

-- ===== src/Util/Print/Refine.antt =====
-- `vsnprintf` prints what the specification renders, cut to the buffer.
use Prim.Native.Nat.{min}
use mathlib.Core.List.{append-nil, append_assoc}
use lq_os_lab.Base.{
  ℕ, ◌+◌, ◌-◌, ◌%◌, ◌^◌, ◌<◌, ◌≤◌, ◌≡◌, refl, sym, Bool, true, false, Option, none, some, List, [],
  ◌∷◌, ◌++◌, arith, ltb, ◌==◌, if◌then◌else◌, length, get_or, Bool-cases, inl, inr,
}
use lq_os_lab.Base.Memory.{u64_mod}
use lq_os_lab.Util.Print.{
  Arg, num, str, Out, Conf, put, put_signed, long_arg, on_hex, on_decimal, on_string, on_char,
  directive, step, run, plain, terminate, returned, vsnprintf,
}
use lq_os_lab.Util.Print.Spec.{
  Holds, Piece, signed_text, hex_piece, decimal_piece, string_piece, char_piece, directive_piece,
  step_piece, render, prepend, decimal_text,
}
use lq_os_lab.Util.Print.Pieces.{put-Holds, put_string-Holds, put_hex-Holds, put_decimal-Holds}

module _ (n : ℕ) (b : ℕ → ℕ) where
  -- The outcome `r` of the code after the text `t`, against the specification's piece.
  abbrev pub Gives : List ℕ → Option Piece → Option Conf → Type 0
  Gives t none none = Unit
  Gives t none (some s) = ⊥
  Gives t (some p) none = ⊥
  Gives t (some p) (some s) =
      Holds n b (t ++ p.chars) s.out
      × (s.format ≡ p.format)
      × (s.longarg ≡ p.longarg)
      × (s.args ≡ p.args)

  abbrev Signed : List ℕ → Option (List ℕ) → Option Out → Type 0
  Signed t none none = Unit
  Signed t none (some o) = ⊥
  Signed t (some u) none = ⊥
  Signed t (some u) (some o) = Holds n b (t ++ u) o

  put_signed-Signed :
      (t : List ℕ) (v : ℕ) (o : Out) → Holds n b t o → Signed t (signed_text v) (put_signed n v o)
  unfolding put_signed signed_text
  put_signed-Signed t v o h = elim (Bool-cases (v == 2 ^ 63)) [
    | inl least ↦ rw least tt
    | inr other ↦ rw other (elim (Bool-cases (ltb v (2 ^ 63))) [
      | inl small ↦ rw small (put_decimal-Holds n b t v o h)
      | inr negative ↦ rw negative (
          rw (sym (append_assoc t (b'-' ∷ []) (decimal_text (u64_mod - v)))) (
            put_decimal-Holds n b (t ++ b'-' ∷ []) (u64_mod - v) (put n b'-' o)
              (put-Holds n b t b'-' o h)))
    ])
  ]

  module _ (t : List ℕ) (o : Out) (h : Holds n b t o) where
    on_hex-Gives :
        (long : Bool) (vl : List Arg) → Gives t (hex_piece [] long vl) (on_hex n long vl o)
    unfolding on_hex hex_piece
    on_hex-Gives long [] = tt
    on_hex-Gives long (str s ∷ vl) = tt
    on_hex-Gives long (num w ∷ vl) = (put_hex-Holds n b t _ _ o h, refl, refl, refl)

    decimal-Gives :
        (vl : List Arg) (u : Option (List ℕ)) (r : Option Out)
        → Signed t u r
        → Gives t
            (elim u [
              | none ↦ none
              | some x ↦ some (record { chars = x; format = false; longarg = false; args = vl })
            ])
            (elim r [ none ↦ none | some x ↦ some (plain vl x) ])
    decimal-Gives vl none none s = tt
    decimal-Gives vl none (some x) s = absurd s
    decimal-Gives vl (some x) none s = absurd s
    decimal-Gives vl (some x) (some y) s = (s, refl, refl, refl)

    on_decimal-Gives :
        (long : Bool) (vl : List Arg) → Gives t (decimal_piece long vl) (on_decimal n long vl o)
    unfolding on_decimal decimal_piece
    on_decimal-Gives long [] = tt
    on_decimal-Gives long (str s ∷ vl) = tt
    on_decimal-Gives long (num w ∷ vl) =
        decimal-Gives vl _ _ (put_signed-Signed t (long_arg long w) o h)

    on_string-Gives : (vl : List Arg) → Gives t (string_piece vl) (on_string n vl o)
    unfolding on_string string_piece
    on_string-Gives [] = tt
    on_string-Gives (num w ∷ vl) = tt
    on_string-Gives (str s ∷ vl) = (put_string-Holds n b t s o h, refl, refl, refl)

    on_char-Gives : (vl : List Arg) → Gives t (char_piece vl) (on_char n vl o)
    unfolding on_char char_piece
    on_char-Gives [] = tt
    on_char-Gives (str s ∷ vl) = tt
    on_char-Gives (num w ∷ vl) = (put-Holds n b t _ o h, refl, refl, refl)

  on_pointer-Gives :
      (t : List ℕ) (o : Out) (vl : List Arg)
      → Holds n b t o
      → Gives t
          (hex_piece (b'0' ∷ b'x' ∷ []) true vl)
          (on_hex n true vl (put n b'x' (put n b'0' o)))
  unfolding on_hex hex_piece
  on_pointer-Gives t o [] h = tt
  on_pointer-Gives t o (str s ∷ vl) h = tt
  on_pointer-Gives t o (num w ∷ vl) h =
      let o₁ = put-Holds n b t b'0' o h in
      let o₂ = put-Holds n b (t ++ b'0' ∷ []) b'x' (put n b'0' o) o₁ in
      let whole =
        put_hex-Holds n b ((t ++ b'0' ∷ []) ++ b'x' ∷ []) 16 (long_arg true w)
          (put n b'x' (put n b'0' o)) o₂ in
      (simp append_assoc at whole, refl, refl, refl)

  if-Gives :
      (t : List ℕ) (p q : Option Piece) (r u : Option Conf) (c : Bool)
      → Gives t p r
      → Gives t q u
      → Gives t (if c then p else q) (if c then r else u)
  if-Gives t p q r u true g h = g
  if-Gives t p q r u false g h = h

  silent : (t : List ℕ) (o : Out) → Holds n b t o → Holds n b (t ++ []) o
  silent t o h = rw append-nil h

  directive-Gives :
      (t : List ℕ) (c : ℕ) (s : Conf)
      → Holds n b t s.out
      → s.format ≡ true
      → Gives t (directive_piece c s.longarg s.args) (directive n c s)
  unfolding directive directive_piece
  directive-Gives t c s h f =
      if-Gives t _ _ _ _ (c == b'l') (silent t s.out h, f, refl, refl)
        (if-Gives t _ _ _ _ (c == b'p') (on_pointer-Gives t s.out s.args h) (
          if-Gives t _ _ _ _ (c == b'x') (on_hex-Gives t s.out h s.longarg s.args) (
            if-Gives t _ _ _ _ (c == b'd') (on_decimal-Gives t s.out h s.longarg s.args) (
              if-Gives t _ _ _ _ (c == b's') (on_string-Gives t s.out h s.args) (
                if-Gives t _ _ _ _ (c == b'c') (on_char-Gives t s.out h s.args)
                  (silent t s.out h, f, refl, refl))))))

  step-Gives :
      (t : List ℕ) (c : ℕ) (s : Conf)
      → Holds n b t s.out
      → Gives t (step_piece c s.format s.longarg s.args) (step n c s)
  unfolding step step_piece
  step-Gives t c s h = elim (Bool-cases s.format) [
    | inl f ↦ simp f (directive-Gives t c s h f)
    | inr f ↦ simp f (
        if-Gives t _ _ _ _ (c == b'%') (silent t s.out h, refl, refl, refl)
          (put-Holds n b t c s.out h, refl, refl, refl))
  ]

  abbrev Ends : List ℕ → Option (List ℕ) → Option Conf → Type 0
  Ends t none none = Unit
  Ends t none (some s) = ⊥
  Ends t (some u) none = ⊥
  Ends t (some u) (some s) = Holds n b (t ++ u) s.out

  Ends-prepend :
      (t u : List ℕ) (v : Option (List ℕ)) (r : Option Conf)
      → Ends (t ++ u) v r
      → Ends t (prepend u v) r
  Ends-prepend t u none none e = e
  Ends-prepend t u none (some s) e = e
  Ends-prepend t u (some v) none e = e
  Ends-prepend t u (some v) (some s) e = rw (← append_assoc t u v) e

  run-Ends :
      (fmt t : List ℕ) (s : Conf)
      → Holds n b t s.out
      → Ends t (render fmt s.format s.longarg s.args) (run n fmt s)
  unfolding run render
  run-Ends [] t s h = silent t s.out h
  run-Ends (c ∷ fmt) t s h = follow _ _ (step-Gives t c s h) (run-Ends fmt)
    where
      follow :
          (p : Option Piece) (r : Option Conf)
          → Gives t p r
          → ((t' : List ℕ) (s' : Conf)
              → Holds n b t' s'.out
              → Ends t' (render fmt s'.format s'.longarg s'.args) (run n fmt s'))
          → Ends t
              (elim p [
                | none ↦ none
                | some q ↦ prepend q.chars (render fmt q.format q.longarg q.args)
              ])
              (elim r [ none ↦ none | some s' ↦ run n fmt s' ])
      follow none none g ih = tt
      follow none (some s') g ih = absurd g
      follow (some q) none g ih = absurd g
      follow (some q) (some s') g ih =
          simp (← g.1, ← g.2, ← g.3) (Ends-prepend t q.chars _ _ (ih (t ++ q.chars) s' g.0))

  -- The bytes below `n - 1` are the text, a NUL ends it, the `int32` result has the low 32 bits of the
  -- whole text's length, and
  -- nothing beyond the buffer is written.
  pub record Prints (t : List ℕ) (o : Out) : Type 0 where
    pub counts : o.pos ≡ length t % 2 ^ 32
    pub inside : (j : ℕ) → j < length t → j + 1 < n → o.buf j ≡ get_or t j 0
    pub ends : 0 < n → o.buf (min (length t) (n - 1)) ≡ 0
    pub outside : (j : ℕ) → n ≤ j → o.buf j ≡ b j

  terminate-Prints : (t : List ℕ) (o : Out) → Holds n b t o → Prints t (returned (terminate n o))
  unfolding terminate returned
  terminate-Prints t o h = record {
    counts = ground (arith, h.counts);
    inside = λ j p q. ground (arith, h.counts, h.inside j);
    ends = λ p. ground (arith, h.counts);
    outside = λ j p. ground (arith, h.counts, h.outside j);
  }

  abbrev pub PrintsLike : Option (List ℕ) → Option Out → Type 0
  PrintsLike none none = Unit
  PrintsLike none (some o) = ⊥
  PrintsLike (some t) none = ⊥
  PrintsLike (some t) (some o) = Prints t o

  closes :
      (t : Option (List ℕ)) (r : Option Conf)
      → Ends [] t r
      → PrintsLike t (elim r [ none ↦ none | some s ↦ some (returned (terminate n s.out)) ])
  closes none none e = tt
  closes none (some s) e = absurd e
  closes (some t) none e = absurd e
  closes (some t) (some s) e = terminate-Prints t s.out e

  pub vsnprintf-render :
      (fmt : List ℕ) (vl : List Arg) → PrintsLike (render fmt false false vl) (vsnprintf b n fmt vl)
  unfolding vsnprintf
  vsnprintf-render fmt vl = closes _ _ (run-Ends fmt [] _ start)
    where
      start : Holds n b [] (record { buf = b; pos = 0 })
      start = record { counts = refl; inside = λ j p. absurd (omega arith); outside = λ j p. refl }

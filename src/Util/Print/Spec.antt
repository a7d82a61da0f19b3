-- ===== src/Util/Print/Spec.antt =====
-- What util/snprintf.c is to print: the text of a format and its arguments, with no buffer.
use lq_os_lab.Base.{
  ℕ, zero, suc, ◌+◌, ◌-◌, ◌*◌, ◌/◌, ◌%◌, ◌^◌, ◌<◌, ◌≤◌, ◌≡◌, Bool, true, false, Option, none, some,
  List, [], ◌∷◌, ◌++◌, ltb, ◌==◌, if◌then◌else◌, length, get_or,
}
use lq_os_lab.Base.Memory.{u64_mod}
use lq_os_lab.Util.Print.{Arg, num, str, Out, hex_digit, long_arg, count_digits, digits_fuel}

-- The `k` lowest hexadecimal digits of `v`, most significant first.
unfoldable pub hex_text : ℕ → ℕ → List ℕ
hex_text zero v = []
hex_text (suc k) v = hex_text k (v / 16) ++ hex_digit (v % 16) ∷ []

-- The `k` lowest decimal digits of `v`, most significant first.
unfoldable pub digits_text : ℕ → ℕ → List ℕ
digits_text zero v = []
digits_text (suc k) v = digits_text k (v / 10) ++ (b'0' + v % 10) ∷ []

-- The number that a text of decimal digits stands for.
unfoldable pub value : ℕ → List ℕ → ℕ
value acc [] = acc
value acc (c ∷ cs) = value (acc * 10 + (c - b'0')) cs

unfoldable pub decimal_text : ℕ → List ℕ
decimal_text v = digits_text (count_digits digits_fuel v 1) v

unfoldable pub signed_text : ℕ → Option (List ℕ)
signed_text v =
    if v == 2 ^ 63
    then none
    else if ltb v (2 ^ 63)
    then some (decimal_text v)
    else some (b'-' ∷ decimal_text (u64_mod - v))

-- The characters that one format character gives, and the state after it.
pub record Piece : Type 0 where
  pub chars : List ℕ
  pub format : Bool
  pub longarg : Bool
  pub args : List Arg

abbrev pub piece : List ℕ → List Arg → Piece
piece t vl = record { chars = t; format = false; longarg = false; args = vl }

unfoldable pub hex_piece : List ℕ → Bool → List Arg → Option Piece
hex_piece front long [] = none
hex_piece front long (str s ∷ vl) = none
hex_piece front long (num w ∷ vl) =
    some (piece (front ++ hex_text (if long then 16 else 8) (long_arg long w)) vl)

unfoldable pub decimal_piece : Bool → List Arg → Option Piece
decimal_piece long [] = none
decimal_piece long (str s ∷ vl) = none
decimal_piece long (num w ∷ vl) = elim (signed_text (long_arg long w)) [
  | none ↦ none
  | some t ↦ some (piece t vl)
]

unfoldable pub string_piece : List Arg → Option Piece
string_piece [] = none
string_piece (num w ∷ vl) = none
string_piece (str s ∷ vl) = some (piece s vl)

unfoldable pub char_piece : List Arg → Option Piece
char_piece [] = none
char_piece (str s ∷ vl) = none
char_piece (num w ∷ vl) = some (piece (w % 256 ∷ []) vl)

unfoldable pub directive_piece : ℕ → Bool → List Arg → Option Piece
directive_piece c long vl =
    if c == b'l'
    then some (record { chars = []; format = true; longarg = true; args = vl })
    else if c == b'p'
    then hex_piece (b'0' ∷ b'x' ∷ []) true vl
    else if c == b'x'
    then hex_piece [] long vl
    else if c == b'd'
    then decimal_piece long vl
    else if c == b's'
    then string_piece vl
    else if c == b'c'
    then char_piece vl
    else some (record { chars = []; format = true; longarg = long; args = vl })

unfoldable pub step_piece : ℕ → Bool → Bool → List Arg → Option Piece
step_piece c format long vl =
    if format
    then directive_piece c long vl
    else if c == b'%'
    then some (record { chars = []; format = true; longarg = long; args = vl })
    else some (record { chars = c ∷ []; format = false; longarg = long; args = vl })

abbrev pub prepend : List ℕ → Option (List ℕ) → Option (List ℕ)
prepend t none = none
prepend t (some u) = some (t ++ u)

unfoldable pub render : List ℕ → Bool → Bool → List Arg → Option (List ℕ)
render [] format long vl = some []
render (c ∷ fmt) format long vl = elim (step_piece c format long vl) [
  | none ↦ none
  | some p ↦ prepend p.chars (render fmt p.format p.longarg p.args)
]

-- The first `n - 1` characters of `t` stand in the buffer, `pos` counts all of them, and from
-- index `n - 1` on the buffer is still `b`.
pub record Holds (n : ℕ) (b : ℕ → ℕ) (t : List ℕ) (o : Out) : Type 0 where
  pub counts : o.pos ≡ length t
  pub inside : (j : ℕ) → j < length t → j + 1 < n → o.buf j ≡ get_or t j 0
  pub outside : (j : ℕ) → n ≤ j + 1 → o.buf j ≡ b j

-- ===== src/Util/Print.antt =====
-- `vsnprintf` of util/snprintf.c. The output buffer is a function from index to byte, and `pos`
-- counts the characters produced. A `va_list` is the list of arguments that were passed: reading
-- past it, or a number as a string, is undefined in C and is `none` here, and so is negating
-- the least `long`. `pos` does not reach 2 ^ 64, since each character has its own source byte.
pub mod Spec
pub mod Pieces
pub mod Refine
pub mod Decimal
use lq_os_lab.Base.{
  ℕ, zero, suc, ◌+◌, ◌-◌, ◌*◌, ◌/◌, ◌%◌, ◌^◌, Bool, true, false, Option, none, some, List, [], ◌∷◌,
  ltb, ◌==◌, if◌then◌else◌,
}
use lq_os_lab.Base.Memory.{u64_mod, u32_mod}

-- One variadic argument: the 64 bits of an integer, or a string without its NUL.
pub data Arg : Type 0 where
  num : ℕ → Arg
  str : List ℕ → Arg

pub record Out : Type 0 where
  pub buf : ℕ → ℕ
  pub pos : ℕ

abbrev pub update : (ℕ → ℕ) → ℕ → ℕ → ℕ → ℕ
update f i v j = if j == i then v else f j

-- `if (++pos < n) out[pos - 1] = c;`
unfoldable pub put : ℕ → ℕ → Out → Out
put n c o =
    if ltb (o.pos + 1) n
    then record { buf = update o.buf o.pos c; pos = o.pos + 1 }
    else record { buf = o.buf; pos = o.pos + 1 }

-- `while (*s2) { if (++pos < n) out[pos - 1] = *s2; s2++; }`
unfoldable pub put_string : ℕ → List ℕ → Out → Out
put_string n [] o = o
put_string n (c ∷ s) o = put_string n s (put n c o)

-- `d < 10 ? '0' + d : 'a' + d - 10`
abbrev pub hex_digit : ℕ → ℕ
hex_digit d = if ltb d 10 then b'0' + d else b'a' + d - 10

-- The `x` loop with `i` running from `k - 1` down to 0.
unfoldable pub put_hex : ℕ → ℕ → ℕ → Out → Out
put_hex n zero v o = o
put_hex n (suc i) v o = put_hex n i v (put n (hex_digit (v / 2 ^ (4 * i) % 16)) o)

-- `for (long nn = num; nn /= 10; digits++);` with fuel for the rounds.
unfoldable pub count_digits : ℕ → ℕ → ℕ → ℕ
count_digits zero nn digits = digits
count_digits (suc f) nn digits =
    let rest = count_digits f (nn / 10) (digits + 1) in if nn / 10 == 0 then digits else rest

-- The loop that writes the decimal digits from the last one, `i` running from `k - 1` to 0.
unfoldable pub put_digits : ℕ → ℕ → ℕ → ℕ → (ℕ → ℕ) → ℕ → ℕ
put_digits n zero pos v buf = buf
put_digits n (suc i) pos v buf =
    put_digits n i pos (v / 10)
      (if ltb (pos + i + 1) n then update buf (pos + i) (b'0' + v % 10) else buf)

-- A `long` is below 2 ^ 63 in magnitude, so it has at most 19 digits.
abbrev pub digits_fuel : ℕ
digits_fuel = 20

unfoldable pub put_decimal : ℕ → ℕ → Out → Out
put_decimal n v o =
    let digits = count_digits digits_fuel v 1 in
    record { buf = put_digits n digits o.pos v o.buf; pos = o.pos + digits }

-- `va_arg(vl, int)` as a `long`: the low 32 bits, sign extended to 64.
unfoldable pub int_arg : ℕ → ℕ
int_arg w = if ltb (w % u32_mod) (2 ^ 31) then w % u32_mod else w % u32_mod + u64_mod - u32_mod

unfoldable pub long_arg : Bool → ℕ → ℕ
long_arg true w = w % u64_mod
long_arg false w = int_arg w

-- The `d` case, from the 64 bits of `num`.
unfoldable pub put_signed : ℕ → ℕ → Out → Option Out
put_signed n v o =
    if v == 2 ^ 63
    then none
    else if ltb v (2 ^ 63)
    then some (put_decimal n v o)
    else some (put_decimal n (u64_mod - v) (put n b'-' o))

pub record Conf : Type 0 where
  pub format : Bool
  pub longarg : Bool
  pub args : List Arg
  pub out : Out

abbrev pub plain : List Arg → Out → Conf
plain vl o = record { format = false; longarg = false; args = vl; out = o }

unfoldable pub on_hex : ℕ → Bool → List Arg → Out → Option Conf
on_hex n long [] o = none
on_hex n long (str s ∷ vl) o = none
on_hex n long (num w ∷ vl) o =
    some (plain vl (put_hex n (if long then 16 else 8) (long_arg long w) o))

unfoldable pub on_decimal : ℕ → Bool → List Arg → Out → Option Conf
on_decimal n long [] o = none
on_decimal n long (str s ∷ vl) o = none
on_decimal n long (num w ∷ vl) o = elim (put_signed n (long_arg long w) o) [
  | none ↦ none
  | some o' ↦ some (plain vl o')
]

unfoldable pub on_string : ℕ → List Arg → Out → Option Conf
on_string n [] o = none
on_string n (num w ∷ vl) o = none
on_string n (str s ∷ vl) o = some (plain vl (put_string n s o))

unfoldable pub on_char : ℕ → List Arg → Out → Option Conf
on_char n [] o = none
on_char n (str s ∷ vl) o = none
on_char n (num w ∷ vl) o = some (plain vl (put n (w % 256) o))

-- The `switch (*s)` in format mode. Any other character is skipped and the mode kept.
unfoldable pub directive : ℕ → ℕ → Conf → Option Conf
directive n c s =
    if c == b'l'
    then some (record s { longarg = true })
    else if c == b'p'
    then on_hex n true s.args (put n b'x' (put n b'0' s.out))
    else if c == b'x'
    then on_hex n s.longarg s.args s.out
    else if c == b'd'
    then on_decimal n s.longarg s.args s.out
    else if c == b's'
    then on_string n s.args s.out
    else if c == b'c'
    then on_char n s.args s.out
    else some s

-- One round of the loop over the format.
unfoldable pub step : ℕ → ℕ → Conf → Option Conf
step n c s =
    if s.format
    then directive n c s
    else if c == b'%'
    then some (record s { format = true })
    else some (record s { out = put n c s.out })

unfoldable pub run : ℕ → List ℕ → Conf → Option Conf
run n [] s = some s
run n (c ∷ fmt) s = elim (step n c s) [ none ↦ none | some s' ↦ run n fmt s' ]

-- `if (pos < n) out[pos] = 0; else if (n) out[n - 1] = 0;`
unfoldable pub terminate : ℕ → Out → Out
terminate n o =
    if ltb o.pos n
    then record { buf = update o.buf o.pos 0; pos = o.pos }
    else if n == 0
    then o
    else record { buf = update o.buf (n - 1) 0; pos = o.pos }

-- `return pos;` as an `int32`, given as its 32 bits.
unfoldable pub returned : Out → Out
returned o = record o { pos = o.pos % u32_mod }

unfoldable pub vsnprintf : (ℕ → ℕ) → ℕ → List ℕ → List Arg → Option Out
unfolding run terminate step directive on_hex on_decimal on_string on_char long_arg int_arg put_hex
    put_string put_signed put_decimal put_digits count_digits put returned
vsnprintf buf n fmt vl = elim (run n fmt (plain vl (record { buf = buf; pos = 0 }))) [
  | none ↦ none
  | some s ↦ some (returned (terminate n s.out))
]

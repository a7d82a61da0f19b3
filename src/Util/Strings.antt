-- ===== src/Util/Strings.antt =====
-- The functions of util/string.c that read C strings. A pointer to bytes is given as the function
-- from an offset to the byte there, so that a string may lie in memory, in a symbol's string
-- table or in a literal. A loop takes fuel; `max_string` rounds are the whole address space, and
-- `none` says that no NUL stands in it.
pub mod Lexical
pub mod Chars
pub mod Atol
use lq_os_lab.Base.{
  ℕ, zero, suc, Bool, ◌||◌, ◌*◌, ◌^◌, leb, ltb, if◌then◌else◌, ◌+◌, ◌-◌, ◌%◌, true, false, not,
  ◌&&◌, Option, none, some, List, [], ◌∷◌, ◌==◌, get_or,
}
use lq_os_lab.Base.Memory.{u32_mod, u64_mod}

abbrev pub CharPtr : Type 0
CharPtr = ℕ → ℕ

abbrev pub max_string : ℕ
max_string = u64_mod

-- The bytes of a literal, followed by NULs.
abbrev pub literal : List ℕ → CharPtr
literal s i = get_or s i 0

-- `while (*p) p++; return p - s;` from offset `i`.
unfoldable pub strlen_loop : ℕ → CharPtr → ℕ → Option ℕ
strlen_loop zero s i = none
strlen_loop (suc f) s i = elim (s i == 0) [ true ↦ some i | false ↦ strlen_loop f s (i + 1) ]

unfoldable pub strlen : CharPtr → Option ℕ
strlen s = strlen_loop max_string s 0

-- The `do ... while (c1 != 0 && c1 == c2)` loop, and the difference as the 32 bits of an `int`.
unfoldable pub strcmp_loop : ℕ → CharPtr → CharPtr → ℕ → Option ℕ
strcmp_loop zero s1 s2 i = none
strcmp_loop (suc f) s1 s2 i = elim (not (s1 i == 0) && (s1 i == s2 i)) [
  | true ↦ strcmp_loop f s1 s2 (i + 1)
  | false ↦ some ((s1 i + u32_mod - s2 i) % u32_mod)
]

unfoldable pub strcmp : CharPtr → CharPtr → Option ℕ
strcmp s1 s2 = strcmp_loop max_string s1 s2 0

-- The bytes that a loop such as `for (; *s; s++)` visits.
unfoldable pub chars_from : ℕ → CharPtr → ℕ → Option (List ℕ)
chars_from zero s i = none
chars_from (suc f) s i = elim (s i == 0) [
  | true ↦ some []
  | false ↦ elim (chars_from f s (i + 1)) [ none ↦ none | some t ↦ some (s i ∷ t) ]
]

unfoldable pub chars : CharPtr → Option (List ℕ)
chars s = chars_from max_string s 0

-- `while (*str == ' ') str++;`
unfoldable pub skip_spaces : ℕ → CharPtr → ℕ → Option ℕ
skip_spaces zero s i = none
skip_spaces (suc f) s i = elim (s i == b' ') [ true ↦ skip_spaces f s (i + 1) | false ↦ some i ]

-- A `long` is its value plus 2 ^ 63; behaviour is undefined where it leaves the range.
abbrev pub long_bias : ℕ
long_bias = 2 ^ 63

-- `res *= 10; res += c - '0';`, in a `long`.
unfoldable pub add_digit : ℕ → ℕ → Option ℕ
add_digit res c =
    if leb (9 * long_bias) (10 * res)
      && ltb (10 * res) (9 * long_bias + u64_mod)
      && leb (9 * long_bias + b'0') (10 * res + c)
      && ltb (10 * res + c) (9 * long_bias + b'0' + u64_mod)
    then some (10 * res + c - b'0' - 9 * long_bias)
    else none

unfoldable pub atol_digits : ℕ → CharPtr → ℕ → ℕ → Option ℕ
atol_digits zero s i res = none
atol_digits (suc f) s i res = elim (s i == 0) [
  | true ↦ some res
  | false ↦ elim (add_digit res (s i)) [ none ↦ none | some res' ↦ atol_digits f s (i + 1) res' ]
]

-- `sign ? -res : res`
unfoldable pub with_sign : Bool → Option ℕ → Option ℕ
with_sign sign none = none
with_sign false (some res) = some res
with_sign true (some res) = if res == 0 then none else some (u64_mod - res)

-- `none` is also a text that does not end or a number that does not fit.
unfoldable pub atol : CharPtr → Option ℕ
atol s = elim (skip_spaces max_string s 0) [
  | none ↦ none
  | some i ↦
      let minus = s i == b'-' in
      let start = if minus || (s i == b'+') then i + 1 else i in
      with_sign minus (atol_digits max_string s start long_bias)
]

-- ===== src/Util/Copy.antt =====
-- The memory functions of util/string.c: `memcpy`, `memset`, `memmove` and `strcpy`,
-- `safestrcpy`. Pointers are addresses, and the blocks do not wrap round the address space. A loop
-- that runs a counted number of rounds recurs on them; `d < dest + len - 7` is written
-- `d + 7 < dest + len`.
pub mod Move
pub mod Words
pub mod Fill
pub mod Ended
use lq_os_lab.Base.{
  ℕ, zero, suc, ◌+◌, ◌-◌, ◌*◌, ◌/◌, ◌%◌, ◌^◌, bit_and, bit_or, Bool, true, false, not, ◌&&◌, Option,
  none, some, ltb, leb, ◌==◌, if◌then◌else◌,
}
use lq_os_lab.Base.Memory.{Mem, u64_mod, load64, store8, store64}

-- Memory and the two pointers of a copying loop.
pub record Copy : Type 0 where
  pub mem : Mem
  pub d : ℕ
  pub s : ℕ

-- `while (d < dest + len - 7) { *(uintptr_t*)d = *(const uintptr_t*)s; d += 8; s += 8; }`; `len`
-- rounds are more than enough.
unfoldable pub copy_words : ℕ → ℕ → Copy → Copy
copy_words zero end c = c
copy_words (suc f) end c =
    let rest =
      copy_words f end
        (record { mem = store64 c.mem c.d (load64 c.mem c.s); d = c.d + 8; s = c.s + 8 }) in
    if ltb (c.d + 7) end then rest else c

-- `while (d < dest + len) *d++ = *s++;`
unfoldable pub copy_bytes : ℕ → ℕ → Copy → Copy
copy_bytes zero end c = c
copy_bytes (suc f) end c =
    let rest =
      copy_bytes f end (record { mem = store8 c.mem c.d (c.mem c.s); d = c.d + 1; s = c.s + 1 }) in
    if ltb c.d end then rest else c

unfoldable pub memcpy : ℕ → ℕ → ℕ → Mem → Mem
memcpy dest src len m =
    let start : Copy = record { mem = m; d = dest; s = src } in
    let words : Copy =
      if bit_and (bit_or dest src) 7 == 0 then copy_words len (dest + len) start else start in
    (copy_bytes len (dest + len) words).mem

-- `*d++ = *s++`, `n` times.
unfoldable pub move_up : ℕ → ℕ → ℕ → Mem → Mem
move_up zero d s m = m
move_up (suc n) d s m = move_up n (d + 1) (s + 1) (store8 m d (m s))

-- `*--d = *--s`, `n` times, from the pointers past the ends.
unfoldable pub move_down : ℕ → ℕ → ℕ → Mem → Mem
move_down zero d s m = m
move_down (suc n) d s m = move_down n (d - 1) (s - 1) (store8 m (d - 1) (m (s - 1)))

unfoldable pub memmove : ℕ → ℕ → ℕ → Mem → Mem
memmove dst src n m =
    if ltb src dst && ltb dst (src + n)
    then move_down n (dst + n) (src + n) m
    else move_up n dst src m

-- The byte in each of the eight bytes of a word.
unfoldable pub word_of : ℕ → ℕ
word_of byte =
    let w1 = bit_and byte 0xFF in
    let w2 = bit_or w1 (w1 * 2 ^ 8 % u64_mod) in
    let w3 = bit_or w2 (w2 * 2 ^ 16 % u64_mod) in
    bit_or w3 (w3 * 2 ^ 16 % u64_mod * 2 ^ 16 % u64_mod)

-- `while (d < (uintptr_t*)(dest + len)) *d++ = word;`
unfoldable pub fill_words : ℕ → ℕ → ℕ → ℕ → Mem → Mem
fill_words zero end word d m = m
fill_words (suc f) end word d m =
    let rest = fill_words f end word (d + 8) (store64 m d word) in if ltb d end then rest else m

unfoldable pub fill_bytes : ℕ → ℕ → ℕ → ℕ → Mem → Mem
fill_bytes zero end byte d m = m
fill_bytes (suc f) end byte d m =
    let rest = fill_bytes f end byte (d + 1) (store8 m d byte) in if ltb d end then rest else m

unfoldable pub memset : ℕ → ℕ → ℕ → Mem → Mem
memset dest byte len m =
    if bit_and (bit_or dest len) 7 == 0
    then fill_words len (dest + len) (word_of byte) dest m
    else fill_bytes len (dest + len) byte dest m

-- `while ((*d++ = *src++));` with fuel.
unfoldable pub strcpy_loop : ℕ → ℕ → ℕ → Mem → Option Mem
strcpy_loop zero d s m = none
strcpy_loop (suc f) d s m = elim (m s == 0) [
  | true ↦ some (store8 m d (m s))
  | false ↦ strcpy_loop f (d + 1) (s + 1) (store8 m d (m s))
]

unfoldable pub strcpy : ℕ → ℕ → Mem → Option Mem
strcpy dest src m = strcpy_loop u64_mod dest src m

-- `while (--n > 0 && (*s++ = *t++) != 0);` with `k` for `n - 1`, then `*s = 0`.
unfoldable pub safestrcpy_loop : ℕ → ℕ → ℕ → Mem → Mem
safestrcpy_loop zero s t m = store8 m s 0
safestrcpy_loop (suc k) s t m =
    let m' = store8 m s (m t) in
    let rest = safestrcpy_loop k (s + 1) (t + 1) m' in
    if m t == 0 then store8 m' (s + 1) 0 else rest

-- `n` is an `int` that is not negative; one that is returns at once, as 0 does.
unfoldable pub safestrcpy : ℕ → ℕ → ℕ → Mem → Mem
safestrcpy s t zero m = m
safestrcpy s t (suc k) m = safestrcpy_loop k s t m

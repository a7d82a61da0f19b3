-- ===== src/Base/Memory.antt =====
-- Byte-addressed memory, as the loads and stores of a little-endian RV64 machine see it.
use Prim.Native.Nat.{ℕ, ◌+◌, ◌-◌, ◌*◌, ◌/◌, ◌%◌, ◌^◌, ◌<◌}
use mathlib.Core.Bool.{◌&&◌}
use lq_os_lab.Base.Tests.{◌==◌, ltb, leb, if◌then◌else◌}

-- 2 ^ 64, the wrap of `uint64`, `size_t` and addresses.
abbrev pub u64_mod : ℕ
u64_mod = 2 ^ 64

abbrev pub u32_mod : ℕ
u32_mod = 2 ^ 32

-- The byte at each address.
abbrev pub Mem : Type 0
Mem = ℕ → ℕ

abbrev pub IsBytes : Mem → Type 0
IsBytes m = (a : ℕ) → m a < 256

unfoldable pub store8 : Mem → ℕ → ℕ → Mem
store8 m a v x = if x == a then v % 256 else m x

-- `a - b` on `uint64`.
abbrev pub sub64 : ℕ → ℕ → ℕ
sub64 a b = (a + u64_mod - b) % u64_mod

-- The 32-bit word at `a`.
unfoldable pub load32 : Mem → ℕ → ℕ
load32 m a = m a + 2 ^ 8 * m (a + 1) + 2 ^ 16 * m (a + 2) + 2 ^ 24 * m (a + 3)

unfoldable pub store32 : Mem → ℕ → ℕ → Mem
store32 m a v x = if leb a x && ltb x (a + 4) then v / 2 ^ (8 * (x - a)) % 256 else m x

-- The 64-bit word at `a`.
unfoldable pub load64 : Mem → ℕ → ℕ
load64 m a =
    m a
    + 2 ^ 8 * m (a + 1)
    + 2 ^ 16 * m (a + 2)
    + 2 ^ 24 * m (a + 3)
    + 2 ^ 32 * m (a + 4)
    + 2 ^ 40 * m (a + 5)
    + 2 ^ 48 * m (a + 6)
    + 2 ^ 56 * m (a + 7)

unfoldable pub store64 : Mem → ℕ → ℕ → Mem
store64 m a v x = if leb a x && ltb x (a + 8) then v / 2 ^ (8 * (x - a)) % 256 else m x

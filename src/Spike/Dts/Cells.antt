-- ===== src/Spike/Dts/Cells.antt =====
-- The numbers of a device tree: big-endian, over as many words as the cell count says.
use lq_os_lab.Base.{ℕ, zero, suc, ◌+◌, ◌*◌, ◌%◌, ◌^◌, ◌<◌, ◌≡◌, ap, ◌∙◌, sym, arith}
use lq_os_lab.Base.Memory.{Mem, IsBytes, u64_mod, load32}
use lq_os_lab.Spike.Dts.{
  bswap, swapped, FdtScanNode, get_cells, positive, fdt_get_address, fdt_get_size,
}
use lq_os_lab.Spike.Dts.Swap.{word, bswap-word}

-- The number that `acc` and the `n` bytes from `a` on make, the highest byte first.
unfoldable pub big_endian : ℕ → Mem → ℕ → ℕ → ℕ
big_endian zero m a acc = acc
big_endian (suc n) m a acc = big_endian n m (a + 1) (acc * 256 + m a)

swapped-word :
    (m : Mem) (a : ℕ) → IsBytes m → swapped m a ≡ word (m a) (m (a + 1)) (m (a + 2)) (m (a + 3))
unfolding load32
swapped-word m a b =
    let e : load32 m a ≡ word (m (a + 3)) (m (a + 2)) (m (a + 1)) (m a) = omega arith in
    ap bswap e
    ∙ bswap-word (m (a + 3)) (m (a + 2)) (m (a + 1)) (m a) (b (a + 3)) (b (a + 2)) (b (a + 1)) (b a)

big_endian-mod :
    (n : ℕ) (m : Mem) (a x y : ℕ)
    → x % u64_mod ≡ y % u64_mod
    → big_endian n m a x % u64_mod ≡ big_endian n m a y % u64_mod
unfolding big_endian
big_endian-mod zero m a x y e = e
big_endian-mod (suc n) m a x y e =
    big_endian-mod n m (a + 1) (x * 256 + m a) (y * 256 + m a) (omega arith)

-- Four bytes are a word.
big_endian-four :
    (n : ℕ) (m : Mem) (a acc : ℕ)
    → IsBytes m
    → big_endian (suc (suc (suc (suc n)))) m a acc
      ≡ big_endian n m (a + 4) (acc * 2 ^ 32 + swapped m a)
unfolding big_endian
big_endian-four n m a acc b =
    let e1 : a + 1 + 1 ≡ a + 2 = omega arith in
    let e2 : a + 2 + 1 ≡ a + 3 = omega arith in
    let e3 : a + 3 + 1 ≡ a + 4 = omega arith in
    rw (e1, e2, e3) (ap (big_endian n m (a + 4)) (omega (arith, swapped-word m a b)))

get_cells-big_endian :
    (k : ℕ) (m : Mem) (value acc : ℕ)
    → IsBytes m
    → acc < u64_mod
    → get_cells k m value acc ≡ (value + 4 * k, big_endian (4 * k) m value acc % u64_mod)
unfolding get_cells big_endian
get_cells-big_endian zero m value acc b h =
    let e1 : value ≡ value + 4 * 0 = omega arith in
    let e2 : acc ≡ acc % u64_mod = omega arith in λ i. (e1 i, e2 i)
get_cells-big_endian (suc k) m value acc b h =
    let n : 4 * suc k ≡ suc (suc (suc (suc (4 * k)))) = omega arith in
    let y = acc * 2 ^ 32 + swapped m value in
    let e1 : value + 4 + 4 * k ≡ value + 4 * suc k = omega arith in
    let same : y % u64_mod % u64_mod ≡ y % u64_mod = omega arith in
    let e2 : big_endian (4 * k) m (value + 4) (y % u64_mod) % u64_mod
        ≡ big_endian (4 * suc k) m value acc % u64_mod =
      big_endian-mod (4 * k) m (value + 4) (y % u64_mod) y same
      ∙ sym (
          ap (λ (t : ℕ). t % u64_mod)
            (ap (λ j. big_endian j m value acc) n ∙ big_endian-four (4 * k) m value acc b)) in
    get_cells-big_endian k m (value + 4) (y % u64_mod) b (omega arith) ∙ (λ i. (e1 i, e2 i))

-- On memory of bytes, an address and a size are the big-endian numbers of as many words as the
-- node's cells say, none for a negative count, modulo 2 ^ 64, and the pointer moves behind them.
pub fdt_get-big_endian :
    (node : FdtScanNode) (m : Mem) (value : ℕ)
    → IsBytes m
    → (fdt_get_address node m value ≡ (
      value + 4 * positive node.address_cells,
      big_endian (4 * positive node.address_cells) m value 0 % u64_mod,
    ))
      × (fdt_get_size node m value ≡ (
        value + 4 * positive node.size_cells,
        big_endian (4 * positive node.size_cells) m value 0 % u64_mod,
      ))
unfolding fdt_get_address fdt_get_size
fdt_get-big_endian node m value b = (
  get_cells-big_endian (positive node.address_cells) m value 0 b (omega arith),
  get_cells-big_endian (positive node.size_cells) m value 0 b (omega arith),
)

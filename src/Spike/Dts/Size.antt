-- ===== src/Spike/Dts/Size.antt =====
-- The size of memory that `mem_done` finds.
use mathlib.Core.Path.{subst}
use native.Mathlib.Nat.{mul-suc}
use lq_os_lab.Base.{
  ℕ, zero, suc, ◌+◌, ◌*◌, ◌%◌, ◌^◌, ◌<◌, ◌≤◌, ◌≡◌, refl, ap, ◌∙◌, arith, true, false, leb,
  if◌then◌else◌, ◌≢◌, List, ◌∷◌, ◌==◌, ◌/◌, ==_self, not, text,
}
use lq_os_lab.Base.Memory.{IsBytes}
use lq_os_lab.World.{World, ok, and_then}
use lq_os_lab.Spike.Utils.{assert_fail}
use lq_os_lab.Spike.Dts.{FdtScanNode, positive}
use lq_os_lab.Spike.Dts.Query.{MemScan, mem_regions, mem_done}
use lq_os_lab.Spike.Dts.Regions.{step_on, region_size, Sizes, mem_regions-Sizes}

step_on-ge : (n d v : ℕ) → 1 ≤ d → v + n ≤ step_on n d v
unfolding step_on
step_on-ge zero d v h = omega arith
step_on-ge (suc n) d v h = omega (arith, step_on-ge n d (v + d) h)

step_on-words : (n k v : ℕ) → step_on n (4 * k) v ≡ v + 4 * (k * n)
unfolding step_on
step_on-words zero k v = let z : k * 0 ≡ 0 = omega arith in omega (arith, z)
step_on-words (suc n) k v = omega (arith, step_on-words n k (v + 4 * k), mul-suc k n)

mem_done-loop :
    (self : ℕ) (node parent : FdtScanNode) (above : List FdtScanNode) (scan : MemScan) (w u : World)
    → scan.memory ≡ true
    → scan.reg_value ≢ 0
    → scan.reg_len < 2 ^ 31
    → scan.reg_len % 4 ≡ 0
    → mem_regions
        (suc scan.reg_len)
        self
        parent
        scan.reg_value
        (scan.reg_value + 4 * (scan.reg_len / 4))
        w
      ≡ ok (scan.reg_value + 4 * (scan.reg_len / 4)) u
    → mem_done self (node ∷ parent ∷ above) scan w ≡ ok scan u
unfolding mem_done
mem_done-loop self node parent above scan w u is_memory value small whole e =
    let end = scan.reg_value + 4 * (scan.reg_len / 4) in
    let e0 : not scan.memory ≡ false = ap not is_memory in
    let e1 : (scan.reg_value == 0) ≡ false = ground arith in
    let e2 : (scan.reg_len % 4 == 0) ≡ true = ground arith in
    let e3 : leb (2 ^ 31) scan.reg_len ≡ false = ground arith in
    let e4 : (end == end) ≡ true = ==_self end in
    rw (e0, e1, e2, e3)
      (ap
          (λ r. and_then r λ stop.
            if stop == end
            then ok scan
            else assert_fail (text "spike_interface/spike_memory.c") 51 (text "end == value"))
          e
        ∙ rw e4 refl)

-- The loop over `n` whole regions, which has enough fuel, decides what `mem_done` does.
module _ (self n : ℕ) (node parent : FdtScanNode) (above : List FdtScanNode) (scan : MemScan)
    (one : 1 ≤ positive parent.address_cells + positive parent.size_cells)
    (len : scan.reg_len
      ≡ 4 * ((positive parent.address_cells + positive parent.size_cells) * n)) where
  region-words :
      region_size self parent ≡ 4 * (positive parent.address_cells + positive parent.size_cells)
  region-words = omega arith

  pub regions-enough : n < suc scan.reg_len
  regions-enough =
      let k = positive parent.address_cells + positive parent.size_cells in
      omega (arith, len, step_on-words n k 0, step_on-ge n (4 * k) 0 (omega arith))

  pub mem_done-runs :
      (w u : World)
      → scan.memory ≡ true
      → scan.reg_value ≢ 0
      → scan.reg_len < 2 ^ 31
      → mem_regions
          (suc scan.reg_len)
          self
          parent
          scan.reg_value
          (step_on n (region_size self parent) scan.reg_value)
          w
        ≡ ok (step_on n (region_size self parent) scan.reg_value) u
      → mem_done self (node ∷ parent ∷ above) scan w ≡ ok scan u
  mem_done-runs w u is_memory value small e =
      let k = positive parent.address_cells + positive parent.size_cells in
      let stop : step_on n (region_size self parent) scan.reg_value
          ≡ scan.reg_value + 4 * (scan.reg_len / 4) =
        ap (λ x. step_on n x scan.reg_value) region-words
        ∙ (step_on-words n k scan.reg_value ∙ omega (arith, len)) in
      mem_done-loop self node parent above scan w u is_memory value small (omega (arith, len))
        (subst (λ x. mem_regions (suc scan.reg_len) self parent scan.reg_value x w ≡ ok x u) stop e)

-- For a node that describes memory, whose `reg` is `n` regions of at least one word, in the cells
-- of its parent, `mem_done` returns, and the size of the last region that holds the address of
-- `mem_done` itself, as a big-endian number, is the size of memory; without one, it stays.
pub mem_done-Sizes :
    (self n : ℕ) (node parent : FdtScanNode) (above : List FdtScanNode) (scan : MemScan) (w : World)
    → IsBytes w.mem
    → scan.memory ≡ true
    → scan.reg_value ≢ 0
    → scan.reg_len < 2 ^ 31
    → 1 ≤ positive parent.address_cells + positive parent.size_cells
    → scan.reg_len ≡ 4 * ((positive parent.address_cells + positive parent.size_cells) * n)
    → (u : World) × (mem_done self (node ∷ parent ∷ above) scan w ≡ ok scan u)
      × Sizes self parent n scan.reg_value w u
mem_done-Sizes self n node parent above scan w b is_memory value small one len =
    let (u, e, sizes) =
      mem_regions-Sizes self parent n (suc scan.reg_len) scan.reg_value w b (omega arith)
        (regions-enough self n node parent above scan one len) in
    (u, mem_done-runs self n node parent above scan one len w u is_memory value small e, sizes)

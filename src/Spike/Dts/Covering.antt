-- ===== src/Spike/Dts/Covering.antt =====
-- The size of the memory as a function of the regions of a node, and `mem_done` of
-- spike_interface/spike_memory.c against it.
use lq_os_lab.Base.{
  ℕ, zero, suc, ◌+◌, ◌*◌, ◌^◌, ◌<◌, ◌≤◌, ◌≡◌, ◌≢◌, ◌∙◌, arith, true, List, ◌∷◌, if◌then◌else◌,
  Bool-cases, inl, inr,
}
use lq_os_lab.Base.Memory.{Mem, IsBytes, u64_mod}
use lq_os_lab.World.{World, ok}
use lq_os_lab.Spike.Dts.{FdtScanNode, positive}
use lq_os_lab.Spike.Dts.Query.{MemScan, mem_regions, mem_done}
use lq_os_lab.Spike.Dts.Regions.{
  step_on, step_on-le, region_size, size_at, covers, round, stop-round,
}
use lq_os_lab.Spike.Dts.Size.{regions-enough, mem_done-runs}

abbrev pub cells : FdtScanNode → ℕ
cells parent = positive parent.address_cells + positive parent.size_cells

module _ (self : ℕ) (parent : FdtScanNode) where
  -- The size of the last of `n` regions that covers `self`, or `size`.
  abbrev pub covering_size : ℕ → Mem → ℕ → ℕ → ℕ
  covering_size zero m v size = size
  covering_size (suc n) m v size =
      covering_size n m (v + region_size self parent)
        (if covers self parent m v then size_at self parent m v else size)

  pub covering_size-lt :
      (n : ℕ) (m : Mem) (v size : ℕ) → size < u64_mod → covering_size n m v size < u64_mod
  covering_size-lt zero m v size h = h
  covering_size-lt (suc n) m v size h =
      covering_size-lt n m (v + region_size self parent)
        (if covers self parent m v then size_at self parent m v else size)
        (elim (Bool-cases (covers self parent m v)) [
          | inl hit ↦ rw hit (omega arith)
          | inr miss ↦ rw miss h
        ])

  mem_regions-covering :
      (n f v : ℕ) (w : World)
      → IsBytes w.mem
      → 1 ≤ region_size self parent
      → n < f
      → mem_regions f self parent v (step_on n (region_size self parent) v) w
        ≡ ok
            (step_on n (region_size self parent) v)
            (record w { g_mem_size = covering_size n w.mem v w.g_mem_size })
  unfolding step_on
  mem_regions-covering n zero v w b one h = absurd (omega arith)
  mem_regions-covering zero (suc f) v w b one h = stop-round self parent f v w
  mem_regions-covering (suc n) (suc f) v w b one h =
      let d = region_size self parent in
      let inside : v < step_on n d (v + d) = omega (arith, step_on-le n d (v + d)) in
      elim (Bool-cases (covers self parent w.mem v)) [
        | inl hit ↦
            let w' = record w { g_mem_size = size_at self parent w.mem v } in
            round self parent f v (step_on n d (v + d)) w b inside
            ∙ rw hit (mem_regions-covering n f (v + d) w' b one (omega arith))
        | inr miss ↦
            round self parent f v (step_on n d (v + d)) w b inside
            ∙ rw miss (mem_regions-covering n f (v + d) w b one (omega arith))
      ]

pub mem_done-covering :
    (self n : ℕ) (node parent : FdtScanNode) (above : List FdtScanNode) (scan : MemScan) (w : World)
    → IsBytes w.mem
    → scan.memory ≡ true
    → scan.reg_value ≢ 0
    → scan.reg_len < 2 ^ 31
    → 1 ≤ cells parent
    → scan.reg_len ≡ 4 * (cells parent * n)
    → mem_done self (node ∷ parent ∷ above) scan w
      ≡ ok scan
          (record w { g_mem_size = covering_size self parent n w.mem scan.reg_value w.g_mem_size })
mem_done-covering self n node parent above scan w b is_memory value small one len =
    mem_done-runs self n node parent above scan one len w _ is_memory value small (
      mem_regions-covering self parent n (suc scan.reg_len) scan.reg_value w b (omega arith)
        (regions-enough self n node parent above scan one len))

-- ===== src/Spike/Dts/Regions.antt =====
-- The memory regions of a device tree, as the loop of `mem_done` reads them.
use lq_os_lab.Base.{
  ℕ, zero, suc, ◌+◌, ◌*◌, ◌%◌, ◌<◌, ◌≤◌, ◌≡◌, ◌⊎◌, inl, inr, refl, ap, ◌∙◌, arith, Bool, true,
  false, ◌&&◌, ltb, leb, if◌then◌else◌, Bool-cases,
}
use lq_os_lab.Base.Memory.{Mem, IsBytes, u64_mod}
use lq_os_lab.World.{World, ok}
use lq_os_lab.Spike.Dts.{FdtScanNode, positive}
use lq_os_lab.Spike.Dts.Cells.{big_endian, fdt_get-big_endian}
use lq_os_lab.Spike.Dts.Query.{mem_regions}

-- `n` steps of `d` from `v`.
unfoldable pub step_on : ℕ → ℕ → ℕ → ℕ
step_on zero d v = v
step_on (suc n) d v = step_on n d (v + d)

pub step_on-le : (n d v : ℕ) → v ≤ step_on n d v
unfolding step_on
step_on-le zero d v = omega arith
step_on-le (suc n) d v = omega (arith, step_on-le n d (v + d))

module _ (self : ℕ) (parent : FdtScanNode) where
  -- The bytes of one region.
  abbrev pub region_size : ℕ
  region_size = 4 * positive parent.address_cells + 4 * positive parent.size_cells

  abbrev pub base_at : Mem → ℕ → ℕ
  base_at m v = big_endian (4 * positive parent.address_cells) m v 0 % u64_mod

  abbrev pub size_at : Mem → ℕ → ℕ
  size_at m v =
      big_endian (4 * positive parent.size_cells) m (v + 4 * positive parent.address_cells) 0
      % u64_mod

  -- The region at `v` holds the address `self`, its end included.
  abbrev pub Covers : Mem → ℕ → Type 0
  Covers m v = (base_at m v ≤ self) × (self ≤ (base_at m v + size_at m v) % u64_mod)

  -- Of `n` regions from `v` on, the last that covers `self` gives the size; without one, nothing
  -- changes.
  abbrev pub Sizes : ℕ → ℕ → World → World → Type 0
  Sizes n v w u =
      (((i : ℕ) → i < n → ¬ Covers w.mem (step_on i region_size v)) × (u ≡ w))
      ⊎ ((i : ℕ) × (i < n)
          × Covers w.mem (step_on i region_size v)
          × ((j : ℕ) → i < j → j < n → ¬ Covers w.mem (step_on j region_size v))
          × (u ≡ record w { g_mem_size = size_at w.mem (step_on i region_size v) }))

  abbrev pub covers : Mem → ℕ → Bool
  covers m v = leb (base_at m v) self && leb self ((base_at m v + size_at m v) % u64_mod)

  pub round :
      (f v end : ℕ) (w : World)
      → IsBytes w.mem
      → v < end
      → mem_regions (suc f) self parent v end w
        ≡ mem_regions f self parent
            (v + region_size)
            end
            (if covers w.mem v then record w { g_mem_size = size_at w.mem v } else w)
  unfolding mem_regions
  round f v end w b lt =
      let e : ltb v end ≡ true = ground arith in
      let a = (fdt_get-big_endian parent w.mem v b).0 in
      let s = (fdt_get-big_endian parent w.mem (v + 4 * positive parent.address_cells) b).1 in
      let assoc : v + 4 * positive parent.address_cells + 4 * positive parent.size_cells
          ≡ v + region_size =
        omega arith in
      rw (mem_regions, e, a, s)
        (ap
          (λ p.
            mem_regions f self parent p end
              (if covers w.mem v then record w { g_mem_size = size_at w.mem v } else w))
          assoc)

  pub stop-round : (f v : ℕ) (w : World) → mem_regions (suc f) self parent v v w ≡ ok v w
  unfolding mem_regions
  stop-round f v w = let e : ltb v v ≡ false = ground arith in rw (mem_regions, e) refl

  -- What holds of the regions behind the first holds of them among all.
  shifted :
      (n v : ℕ) (m : Mem) (k : ℕ)
      → ((j : ℕ) → k ≤ j → j < n → ¬ Covers m (step_on j region_size (v + region_size)))
      → (j : ℕ) → suc k ≤ j
      → j < suc n
      → ¬ Covers m (step_on j region_size v)
  unfolding step_on
  shifted n v m k none zero lo hi = absurd (omega arith)
  shifted n v m k none (suc j) lo hi = none j (omega arith) (omega arith)

  all_none :
      (n v : ℕ) (m : Mem)
      → ¬ Covers m v
      → ((j : ℕ) → j < n → ¬ Covers m (step_on j region_size (v + region_size)))
      → (j : ℕ) → j < suc n
      → ¬ Covers m (step_on j region_size v)
  unfolding step_on
  all_none n v m miss none zero hi = miss
  all_none n v m miss none (suc j) hi = none j (omega arith)

  next-hit :
      (n v : ℕ) (w u : World)
      → Covers w.mem v
      → Sizes n (v + region_size) (record w { g_mem_size = size_at w.mem v }) u
      → Sizes (suc n) v w u
  unfolding step_on
  next-hit n v w u hit (inl (none, e)) =
      inr (0, omega arith, hit, λ j lo hi. shifted n v w.mem 0 (λ i l h. none i h) j lo hi, e)
  next-hit n v w u hit (inr (i, lt, here, later, e)) =
      inr (suc i, omega arith, here, λ j lo hi. shifted n v w.mem (suc i) later j lo hi, e)

  next-miss :
      (n v : ℕ) (w u : World)
      → ¬ Covers w.mem v
      → Sizes n (v + region_size) w u
      → Sizes (suc n) v w u
  unfolding step_on
  next-miss n v w u miss (inl (none, e)) = inl (all_none n v w.mem miss none, e)
  next-miss n v w u miss (inr (i, lt, here, later, e)) =
      inr (suc i, omega arith, here, λ j lo hi. shifted n v w.mem (suc i) later j lo hi, e)

  -- With at least one word in each region, the loop over `n` regions ends behind the last.
  pub mem_regions-Sizes :
      (n f v : ℕ) (w : World)
      → IsBytes w.mem
      → 1 ≤ region_size
      → n < f
      → (u : World) × (mem_regions f self parent v (step_on n region_size v) w
          ≡ ok (step_on n region_size v) u)
        × Sizes n v w u
  unfolding step_on
  mem_regions-Sizes n zero v w b one h = absurd (omega arith)
  mem_regions-Sizes zero (suc f) v w b one h =
      (w, stop-round f v w, inl (λ i lt. absurd (omega arith), refl))
  mem_regions-Sizes (suc n) (suc f) v w b one h =
      let end = step_on n region_size (v + region_size) in
      let inside : v < end = omega (arith, step_on-le n region_size (v + region_size)) in
      elim (Bool-cases (covers w.mem v)) [
        | inl hit ↦
            let w' = record w { g_mem_size = size_at w.mem v } in
            let (u, e, sizes) = mem_regions-Sizes n f (v + region_size) w' b one (omega arith) in
            (u, round f v end w b inside ∙ rw hit e, next-hit n v w u (ground (arith, hit)) sizes)
        | inr miss ↦
            let (u, e, sizes) = mem_regions-Sizes n f (v + region_size) w b one (omega arith) in
            (
              u,
              round f v end w b inside ∙ rw miss e,
              next-miss n v w u (λ c. ground (arith, miss, c)) sizes,
            )
      ]

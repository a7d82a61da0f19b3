-- ===== src/Spike/Dts/Amount/Memory.antt =====
-- The callbacks of spike_interface/spike_memory.c leave the memory as it is.
use mathlib.Core.Path.{subst}
use lq_os_lab.Base.{
  ℕ, zero, suc, leb, ltb, ◌%◌, ◌+◌, ◌^◌, ◌≡◌, refl, Bool, true, false, ◌||◌, List, [], ◌∷◌,
  if◌then◌else◌, ◌==◌, text, not, ◌&&◌,
}
use lq_os_lab.Base.Memory.{u64_mod}
use lq_os_lab.World.{World, ok, fault, and_then, Cmd, After}
use lq_os_lab.World.Runs.{After-and_then, After-if, After-either}
use lq_os_lab.Spike.Utils.{assert_fail}
use lq_os_lab.Spike.Utils.Console.{assert_fail-After}
use lq_os_lab.Spike.Dts.{FdtScanNode, text_is, fdt_get_address, fdt_get_size}
use lq_os_lab.Spike.Dts.Query.{MemScan, both_are, mem_open, mem_prop, mem_regions, mem_done, mem_cb}
use lq_os_lab.Spike.Dts.Tree.{opened, finished, seen, KeepsMem}
use lq_os_lab.Spike.Dts.Says.{Keeps, both_are-Keeps, text_is-Keeps}

sized-mem :
    (b : Bool) (size : ℕ) (w : World)
    → (if b then record w { g_mem_size = size } else w).mem ≡ w.mem
sized-mem true size w = refl
sized-mem false size w = refl

regions-Keeps :
    (f self : ℕ) (parent : FdtScanNode) (value end : ℕ) (w : World)
    → After (Keeps w) (mem_regions f self parent value end w)
unfolding mem_regions
regions-Keeps zero self parent value end w = tt
regions-Keeps (suc f) self parent value end w =
    let (value₁, base) = fdt_get_address parent w.mem value in
    let (value₂, size) = fdt_get_size parent w.mem value₁ in
    let here = leb base self && leb self ((base + size) % u64_mod) in
    After-either (Keeps w) (ltb value end)
      (mem_regions f self parent value₂ end (if here then record w { g_mem_size = size } else w))
      (ok value w)
      (subst
        (λ m.
          After (λ _ u. u.mem ≡ m)
            (mem_regions f self parent value₂ end
              (if here then record w { g_mem_size = size } else w)))
        (sized-mem here size w)
        (regions-Keeps f self parent value₂ end
          (if here then record w { g_mem_size = size } else w)))
      refl

read-Keeps :
    (self end : ℕ) (nodes : List FdtScanNode) (scan : MemScan) (w : World)
    → let read : Cmd MemScan = elim nodes [
      | [] ↦ (λ v. fault)
      | node ∷ parents ↦ elim parents [
        | [] ↦ (if scan.reg_len == 0 then ok scan else (λ v. fault))
        | parent ∷ rest ↦ λ v.
            and_then (mem_regions (suc scan.reg_len) self parent scan.reg_value end v) λ stop.
              if stop == end
              then ok scan
              else assert_fail (text "spike_interface/spike_memory.c") 51 (text "end == value")
      ]
    ] in
      After (Keeps w) (read w)
read-Keeps self end [] scan w = tt
read-Keeps self end (node ∷ []) scan w = After-if (Keeps w) (scan.reg_len == 0) _ _ w refl tt
read-Keeps self end (node ∷ parent ∷ above) scan w =
    After-and_then (Keeps w) (Keeps w) _ _ (regions-Keeps _ self parent scan.reg_value end w)
      λ stop v e. After-if (Keeps w) (stop == end) _ _ v e (assert_fail-After (Keeps w) _ _ _ v)

mem_done-Keeps :
    (self : ℕ) (nodes : List FdtScanNode) (scan : MemScan) (w : World)
    → After (Keeps w) (mem_done self nodes scan w)
unfolding mem_done
mem_done-Keeps self nodes scan w =
    let stops : (line : ℕ) (cond : List ℕ) (w' : World)
        → After (Keeps w) (assert_fail (text "spike_interface/spike_memory.c") line cond w') =
      assert_fail-After (Keeps w) (text "spike_interface/spike_memory.c") in
    After-if _ (not scan.memory) _ _ w refl (
      After-if _ ((scan.reg_value == 0) || not (scan.reg_len % 4 == 0)) _ _ w (stops _ _ w) (
        After-if _ (leb (2 ^ 31) scan.reg_len) _ _ w (stops _ _ w)
          (read-Keeps self _ nodes scan w)))

pub mem-KeepsMem : (self : ℕ) → KeepsMem (mem_cb self)
unfolding mem_cb mem_open mem_prop
mem-KeepsMem self (opened nodes) scan w = refl
mem-KeepsMem self (finished nodes) scan w = mem_done-Keeps self nodes scan w
mem-KeepsMem self (seen p) scan w =
    After-and_then (Keeps w) (Keeps w) (both_are _ _ _ _ w) _ (both_are-Keeps _ _ _ _ w) λ b v e.
      elim b
        as (λ b. After (Keeps w) (
          (if b
            then ok (record scan { memory = true }) v
            else (and_then (text_is p.name (text "reg") v) λ is_reg. ok (
                if is_reg then record scan { reg_value = p.value; reg_len = p.len } else scan))))) [
                  | true ↦ e
                  | false ↦
                      After-and_then (Keeps w) (Keeps w) (text_is p.name (text "reg") v) _
                        (subst (λ m. After (λ _ u. u.mem ≡ m) (text_is p.name (text "reg") v)) e
                          (text_is-Keeps p.name (text "reg") v))
                        (λ c u k. k)
                ]

-- ===== src/Spike/Dts/Query.antt =====
-- The queries of the device tree: spike_interface/spike_memory.c for the size of the memory, and
-- spike_interface/spike_htif.c for the host interface. `self` is the address of `mem_done`.
use lq_os_lab.Base.{
  ℕ, zero, suc, ◌+◌, ◌*◌, ◌/◌, ◌%◌, ◌^◌, Bool, true, false, not, ◌&&◌, ◌||◌, none, some, List, [],
  ◌∷◌, ltb, leb, ◌==◌, if◌then◌else◌, text,
}
use lq_os_lab.Base.Memory.{u64_mod}
use lq_os_lab.World.{ok, fault, diverges, Cmd, and_then}
use lq_os_lab.Spike.Utils.{assert_fail}
use lq_os_lab.Spike.Dts.{
  FdtScanNode, FdtScanProp, FdtCb, text_is, fdt_scan, fdt_get_address, fdt_get_size,
}

pub record MemScan : Type 0 where
  pub memory : Bool
  pub reg_value : ℕ
  pub reg_len : ℕ

unfoldable pub mem_open : List FdtScanNode → MemScan → Cmd MemScan
mem_open nodes scan w = ok (record { memory = false; reg_value = 0; reg_len = 0 }) w

-- `!strcmp(p, s) && !strcmp(q, t)`
unfoldable pub both_are : ℕ → List ℕ → ℕ → List ℕ → Cmd Bool
both_are p s q t w = and_then (text_is p s w) λ a. if a then text_is q t else ok false

unfoldable pub mem_prop : FdtScanProp → MemScan → Cmd MemScan
mem_prop p scan w =
    and_then (both_are p.name (text "device_type") p.value (text "memory") w) λ is_memory v.
      if is_memory
      then ok (record scan { memory = true }) v
      else (and_then (text_is p.name (text "reg") v) λ is_reg.
          ok (if is_reg then record scan { reg_value = p.value; reg_len = p.len } else scan))

-- The loop over the regions, up to `end`, with the parent's cells: where it stops.
unfoldable pub mem_regions : ℕ → ℕ → FdtScanNode → ℕ → ℕ → Cmd ℕ
mem_regions zero self parent value end w = diverges
mem_regions (suc f) self parent value end w =
    let (value₁, base) = fdt_get_address parent w.mem value in
    let (value₂, size) = fdt_get_size parent w.mem value₁ in
    let rest = mem_regions f self parent value₂ end in
    let here = leb base self && leb self ((base + size) % u64_mod) in
    if ltb value end then rest (if here then record w { g_mem_size = size } else w) else ok value w

-- `reg_len` is an `int`: for a negative one the loop is not entered, and `end` is not `value`.
unfoldable pub mem_done : ℕ → List FdtScanNode → MemScan → Cmd MemScan
mem_done self nodes scan w =
    let value = scan.reg_value in
    let end = value + 4 * (scan.reg_len / 4) in
    let unequal : Cmd MemScan =
      assert_fail (text "spike_interface/spike_memory.c") 51 (text "end == value") in
    (if not scan.memory
        then ok scan
        else if (value == 0) || not (scan.reg_len % 4 == 0)
        then assert_fail (text "spike_interface/spike_memory.c") 41
            (text "scan->reg_value && scan->reg_len % 4 == 0")
        else if leb (2 ^ 31) scan.reg_len
        then unequal
        else elim nodes [
          | [] ↦ (λ v. fault)
          | node ∷ parents ↦ elim parents [
            | [] ↦ (if scan.reg_len == 0 then ok scan else (λ v. fault))
            | parent ∷ rest ↦ λ v.
                and_then (mem_regions (suc scan.reg_len) self parent value end v)
                  λ stop. if stop == end then ok scan else unequal
          ]
        ])
      w

unfoldable pub mem_cb : ℕ → FdtCb MemScan
mem_cb self = record {
  open_node = some mem_open;
  prop = mem_prop;
  done = some (mem_done self);
  close = none;
}

-- `scan` holds what the stack held.
unfoldable pub query_mem : ℕ → ℕ → MemScan → ℕ → Cmd (Unit {0})
query_mem f self scan fdt w =
    and_then (fdt_scan f fdt (mem_cb self) scan (record w { g_mem_size = 0 })) λ s v.
      if v.g_mem_size == 0
      then assert_fail (text "spike_interface/spike_memory.c") 67 (text "g_mem_size > 0") v
      else ok tt v

pub record HtifScan : Type 0 where
  pub compat : Bool

unfoldable pub htif_open : List FdtScanNode → HtifScan → Cmd HtifScan
htif_open nodes scan = ok (record { compat = false })

unfoldable pub htif_prop : FdtScanProp → HtifScan → Cmd HtifScan
htif_prop p scan w =
    and_then (both_are p.name (text "compatible") p.value (text "ucb,htif0") w)
      λ is_htif. ok (if is_htif then record { compat = true } else scan)

unfoldable pub htif_done : List FdtScanNode → HtifScan → Cmd HtifScan
htif_done nodes scan w = ok scan (if scan.compat then record w { htif = 1 } else w)

unfoldable pub htif_cb : FdtCb HtifScan
htif_cb = record {
  open_node = some htif_open;
  prop = htif_prop;
  done = some htif_done;
  close = none;
}

unfoldable pub query_htif : ℕ → HtifScan → ℕ → Cmd (Unit {0})
query_htif f scan fdt w = and_then (fdt_scan f fdt htif_cb scan w) λ s. ok tt

-- ===== src/Kernel/Startup/Devices.antt =====
-- `init_dtb` and `m_start` of kernel/machine/minit.c on a device tree.
use lq_os_lab.Base.{
  ℕ, ◌+◌, ◌/◌, ◌^◌, ◌≤◌, ◌≡◌, ◌≢◌, refl, ◌∙◌, arith, false, some, List, [], ◌∷◌, ◌==◌,
  if◌then◌else◌, text, Bool-cases, inl, inr,
}
use lq_os_lab.Base.Memory.{IsBytes}
use lq_os_lab.Util.Print.{num}
use lq_os_lab.Util.Print.Spec.{render, step_piece}
use lq_os_lab.World.{World, HostCall, ok}
use lq_os_lab.World.Runs.{Succeeds, and_then-ok}
use lq_os_lab.Spike.Utils.{sprint}
use lq_os_lab.Spike.Utils.Console.{logged, sprint-ok}
use lq_os_lab.Spike.Dts.{new_child, swapped}
use lq_os_lab.Spike.Dts.Query.{MemScan, HtifScan, query_htif, query_mem}
use lq_os_lab.Spike.Dts.Tree.{Children, IsTree, children_tokens}
use lq_os_lab.Spike.Dts.Visit.Walk.{AllNodes}
use lq_os_lab.Spike.Dts.Says.{some_node}
use lq_os_lab.Spike.Dts.Device.{is_htif, found, query_htif-finds}
use lq_os_lab.Spike.Dts.Amount.Query.{query_mem-sizes}
use lq_os_lab.Spike.Dts.Amount.{MemoryIsSound, tree_size, sized, tree_size-lt}
use lq_os_lab.Spike.Utils.Messages.{render-size}
use lq_os_lab.Kernel.Startup.{init_dtb}

-- What the two queries leave: the interface, the size, and console output.
abbrev pub Finds : ℕ → ℕ → Children → World → World → Type 0
Finds self struct c w v = v ≡ record w {
  htif = if some_node is_htif c then 1 else w.htif;
  g_mem_size = tree_size self w.mem [] new_child struct c 0;
  host = v.host;
}

available :
    render (text "HTIF is available!\r\n") false false [] ≡ some (text "HTIF is available!\r\n")
unfolding render step_piece
available = refl

htif_line :
    (w : World)
    → (h : List HostCall) × ((if w.htif == 0
          then ok tt w
          else sprint (text "HTIF is available!\r\n") [] w)
        ≡ ok tt (record w { host = h }))
htif_line w = elim (Bool-cases (w.htif == 0)) [
  | inl off ↦ (w.host, rw off refl)
  | inr on ↦
      let (bytes, e) = sprint-ok (text "HTIF is available!\r\n") [] _ w available in
      ((logged bytes w).host, rw on e)
]

pub init_dtb-Finds :
    (f self dtb : ℕ) (htif_scan : HtifScan) (mem_scan : MemScan) (c : Children) (w : World)
    → IsBytes w.mem
    → IsTree w.mem dtb c
    → children_tokens c ≤ f
    → AllNodes MemoryIsSound [] new_child (dtb + swapped w.mem (dtb + 8)) c
    → tree_size self w.mem [] new_child (dtb + swapped w.mem (dtb + 8)) c 0 ≢ 0
    → Succeeds
        (init_dtb f self htif_scan mem_scan dtb w)
        (λ _ v. Finds self (dtb + swapped w.mem (dtb + 8)) c w v)
unfolding init_dtb
init_dtb-Finds f self dtb htif_scan mem_scan c w bytes t enough sound some_size =
    let struct = dtb + swapped w.mem (dtb + 8) in
    let size = tree_size self w.mem [] new_child struct c 0 in
    let u = found (some_node is_htif c) w in
    let (h, line) = htif_line u in
    let v = record u { host = h } in
    let there : (size == 0) ≡ false = ground (arith, some_size) in
    let x = sized size v in
    let bound = tree_size-lt self w.mem [] new_child struct c 0 (omega arith) in
    let (out, e) =
      sprint-ok (text "(Emulated) memory size: %ld MB\n") (num (size / 2 ^ 20) ∷ []) _ x
        (render-size (size / 2 ^ 20) (omega (arith, bound))) in
    (
      tt,
      logged out x,
      and_then-ok (query_htif f htif_scan dtb w) _ tt u
            (query_htif-finds f dtb htif_scan c w t enough)
          ∙ and_then-ok _ _ tt v line
          ∙ and_then-ok (query_mem f self mem_scan dtb v) _ tt x
              (query_mem-sizes f self dtb mem_scan c v bytes t enough sound ∙ rw there refl)
          ∙ e,
      refl,
    )

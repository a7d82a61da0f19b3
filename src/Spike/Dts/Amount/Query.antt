-- ===== src/Spike/Dts/Amount/Query.antt =====
-- `query_mem` of spike_interface/spike_memory.c on a device tree.
use lq_os_lab.Base.{ℕ, ◌+◌, ◌≤◌, ◌≡◌, refl, ap, ◌∙◌, List, [], ◌∷◌, if◌then◌else◌, ◌==◌, text}
use lq_os_lab.Base.Memory.{IsBytes}
use lq_os_lab.World.{World, ok}
use lq_os_lab.World.Runs.{and_then-ok}
use lq_os_lab.Spike.Utils.{assert_fail}
use lq_os_lab.Spike.Dts.{FdtScanNode, swapped, new_child}
use lq_os_lab.Spike.Dts.Query.{MemScan, mem_cb, query_mem}
use lq_os_lab.Spike.Dts.Tree.{
  Children, end_node, fdt_end, skip_nop, child, name_end, entries_end, children_end,
  children_tokens, IsTree, with_entries,
}
use lq_os_lab.Spike.Dts.Visit.Nodes.{fdt_scan-visit}
use lq_os_lab.Spike.Dts.Visit.Walk.{Walked, AllNodes, walk}
use lq_os_lab.Spike.Dts.Amount.{tree_size, sized, MemoryIsSound}
use lq_os_lab.Spike.Dts.Amount.Entries.{MemoryEffect, mem-Returns}
use lq_os_lab.Spike.Dts.Amount.Memory.{mem-KeepsMem}

Walked-sized :
    (self : ℕ) (c : Children) (parents : List FdtScanNode) (kid : FdtScanNode) (lex : ℕ)
    (w v : World)
    → Walked (MemoryEffect self) parents kid lex c w v
    → v ≡ sized (tree_size self w.mem parents kid lex c w.g_mem_size) w
Walked-sized self end_node parents kid lex w v h = h
Walked-sized self fdt_end parents kid lex w v h = h
Walked-sized self (skip_nop c) parents kid lex w v h =
    Walked-sized self c parents kid (lex + 4) w v h
Walked-sized self (child name es sub c) parents kid lex w v (u, t, effect, inside, behind) =
    let n = with_entries es (record kid { name = lex + 4 }) in
    let inner = entries_end (name_end lex name) es in
    Walked-sized self c parents n (children_end inner sub) t v behind
    ∙ ap (λ t. sized (tree_size self t.mem parents n (children_end inner sub) c t.g_mem_size) t)
        (Walked-sized self sub (n ∷ parents) new_child inner u t inside)
    ∙ ap
        (λ u.
          let below = tree_size self u.mem (n ∷ parents) new_child inner sub u.g_mem_size in
          sized (tree_size self u.mem parents n (children_end inner sub) c below) u)
        effect

-- On a device tree of bytes whose memory nodes have whole regions, with a round for each token,
-- `query_mem` sets the size of the memory to that of the last region, in the order of the tree and of
-- its region lists, that holds the address of `mem_done`, and returns; without one, or where that
-- size is 0, its assertion fails. Nothing else changes before.
pub query_mem-sizes :
    (f self fdt : ℕ) (scan : MemScan) (c : Children) (w : World)
    → IsBytes w.mem
    → IsTree w.mem fdt c
    → children_tokens c ≤ f
    → AllNodes MemoryIsSound [] new_child (fdt + swapped w.mem (fdt + 8)) c
    → query_mem f self scan fdt w ≡ (
        let size = tree_size self w.mem [] new_child (fdt + swapped w.mem (fdt + 8)) c 0 in
        if size == 0
        then assert_fail
            (text "spike_interface/spike_memory.c")
            67
            (text "g_mem_size > 0")
            (sized size w)
        else ok tt (sized size w))
unfolding query_mem mem_cb
query_mem-sizes f self fdt scan c w bytes t enough sound =
    let strings = fdt + swapped w.mem (fdt + 12) in
    let struct = fdt + swapped w.mem (fdt + 8) in
    let w' = sized 0 w in
    let size = tree_size self w.mem [] new_child struct c 0 in
    let stops = assert_fail (text "spike_interface/spike_memory.c") 67 (text "g_mem_size > 0") in
    let (s, v, r, k, walked) =
      walk (mem_cb self) strings w.mem MemoryIsSound (MemoryEffect self)
        (mem-Returns self strings w.mem bytes) c [] new_child struct scan w' refl t.2 sound in
    and_then-ok _ _ s v
      (fdt_scan-visit (mem_cb self) f fdt c scan w' (mem-KeepsMem self) refl t enough ∙ r)
    ∙ ap (λ v. if v.g_mem_size == 0 then stops v else ok tt v)
        (Walked-sized self c [] new_child struct w' v walked)

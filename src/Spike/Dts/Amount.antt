-- ===== src/Spike/Dts/Amount.antt =====
-- The size of the memory that a device tree tells, as spike_interface/spike_memory.c looks for it: a
-- function of the tree and of the regions in memory.
pub mod Entries
pub mod Memory
pub mod Query
use mathlib.Core.Path.{subst}
use lq_os_lab.Base.{
  ℕ, zero, suc, leb, ltb, ◌/◌, ◌%◌, ◌+◌, ◌*◌, ◌^◌, ◌<◌, ◌≤◌, ◌≡◌, ◌≢◌, refl, sym, ap, ◌∙◌, arith,
  Bool, true, false, ◌||◌, Option, none, some, List, [], ◌∷◌, ◌++◌, if◌then◌else◌, ◌==◌, text, inl,
  inr, Bool-cases, not, ◌&&◌, ◌⊎◌, or_swap, or_false,
}
use lq_os_lab.Base.Memory.{Mem, IsBytes, u64_mod}
use lq_os_lab.Util.Strings.{literal, strcmp}
use lq_os_lab.Util.Strings.Lexical.{StandsAt, lexical, Order, less, equal, greater}
use lq_os_lab.World.{World, ok, fault, and_then, Cmd, After}
use lq_os_lab.World.Runs.{and_then-ok, After-and_then, After-if, After-either}
use lq_os_lab.Spike.Utils.{assert_fail}
use lq_os_lab.Spike.Utils.Console.{assert_fail-After}
use lq_os_lab.Spike.Dts.{
  FdtScanNode, fdt_scan, swapped, new_child, text_is, positive, fdt_get_address, fdt_get_size,
}
use lq_os_lab.Spike.Dts.Query.{
  MemScan, both_are, mem_open, mem_prop, mem_regions, mem_done, mem_cb, query_mem,
}
use lq_os_lab.Spike.Dts.Covering.{cells, covering_size, covering_size-lt, mem_done-covering}
use lq_os_lab.Spike.Dts.Tree.{
  Property, Entry, skip, property, Children, end_node, fdt_end, skip_nop, child, prop_end, name_end,
  entries_end, children_end, IsText, EntriesAt, PropertyAt, children_tokens, IsTree, tree_events,
  Event, opened, finished, seen, with_cells, with_entries, entry_events, seen_prop, perform,
  KeepsMem,
}
use lq_os_lab.Util.Strings.Lexical.{same_text}
use lq_os_lab.Spike.Dts.Visit.{text_is-same, perform-then}
use lq_os_lab.Spike.Dts.Visit.Nodes.{fdt_scan-visit}
use lq_os_lab.Spike.Dts.Visit.Walk.{
  NodeEffect, NodeClaim, Walked, Returns, AllNodes, walk, node_events,
}
use lq_os_lab.Spike.Dts.Says.{
  says, some_entry, some_node, both_are-says, Keeps, both_are-Keeps, text_is-Keeps,
}

-- A node that says that it is memory.
abbrev pub is_memory : List Entry → Bool
is_memory = some_entry (says (text "device_type") (text "memory"))

-- Where the last "reg" of the entries from `lex` on has its value, and its length.
abbrev pub reg_of : ℕ × ℕ → ℕ → List Entry → ℕ × ℕ
reg_of r lex [] = r
reg_of r lex (skip ∷ es) = reg_of r (lex + 4) es
reg_of r lex (property p ∷ es) =
    reg_of (if same_text p.name (text "reg") then (lex + 12, p.len) else r) (prop_end lex p) es

-- Of a node that says that it is memory: its regions are a whole number, in its parent's cells.
abbrev pub RegIsSound : List FdtScanNode → ℕ × ℕ → Type 0
RegIsSound [] r = ⊥
RegIsSound (parent ∷ above) r =
    (r.0 ≢ 0)
    × (r.1 < 2 ^ 31)
    × (1 ≤ cells parent)
    × (r.1 ≡ 4 * (cells parent * (r.1 / 4 / cells parent)))

-- The size of the memory behind a node, which is memory if `b`, from what it was.
abbrev pub node_size : ℕ → Bool → List FdtScanNode → ℕ × ℕ → Mem → ℕ → ℕ
node_size self false parents r m size = size
node_size self true [] r m size = size
node_size self true (parent ∷ above) r m size =
    covering_size self parent (r.1 / 4 / cells parent) m r.0 size

-- The size of the memory behind a tree's nodes, in their order.
abbrev pub tree_size : ℕ → Mem → List FdtScanNode → FdtScanNode → ℕ → Children → ℕ → ℕ
tree_size self m parents kid lex end_node size = size
tree_size self m parents kid lex fdt_end size = size
tree_size self m parents kid lex (skip_nop c) size = tree_size self m parents kid (lex + 4) c size
tree_size self m parents kid lex (child name es sub c) size =
    let n = with_entries es (record kid { name = lex + 4 }) in
    let inner = entries_end (name_end lex name) es in
    let here =
      node_size self (is_memory es) parents (reg_of (0, 0) (name_end lex name) es) m size in
    let below = tree_size self m (n ∷ parents) new_child inner sub here in
    tree_size self m parents n (children_end inner sub) c below

node_size-lt :
    (self : ℕ) (b : Bool) (parents : List FdtScanNode) (r : ℕ × ℕ) (m : Mem) (size : ℕ)
    → size < u64_mod
    → node_size self b parents r m size < u64_mod
node_size-lt self false parents r m size h = h
node_size-lt self true [] r m size h = h
node_size-lt self true (parent ∷ above) r m size h =
    covering_size-lt self parent (r.1 / 4 / cells parent) m r.0 size h

pub tree_size-lt :
    (self : ℕ) (m : Mem) (parents : List FdtScanNode) (kid : FdtScanNode) (lex : ℕ) (c : Children)
    (size : ℕ)
    → size < u64_mod
    → tree_size self m parents kid lex c size < u64_mod
tree_size-lt self m parents kid lex end_node size h = h
tree_size-lt self m parents kid lex fdt_end size h = h
tree_size-lt self m parents kid lex (skip_nop c) size h =
    tree_size-lt self m parents kid (lex + 4) c size h
tree_size-lt self m parents kid lex (child name es sub c) size h =
    let n = with_entries es (record kid { name = lex + 4 }) in
    let inner = entries_end (name_end lex name) es in
    let reg = reg_of (0, 0) (name_end lex name) es in
    let here = node_size self (is_memory es) parents reg m size in
    tree_size-lt self m parents n (children_end inner sub) c
      (tree_size self m (n ∷ parents) new_child inner sub here)
      (tree_size-lt self m (n ∷ parents) new_child inner sub here
        (node_size-lt self (is_memory es) parents reg m size h))

abbrev pub sized : ℕ → World → World
sized size w = record w { g_mem_size = size }

abbrev pub MemoryIsSound : NodeClaim
MemoryIsSound parents n lex es = is_memory es ≡ true → RegIsSound parents (reg_of (0, 0) lex es)

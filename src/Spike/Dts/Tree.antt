-- ===== src/Spike/Dts/Tree.antt =====
-- A device tree apart from its bytes: nodes, their properties and their children, the layout that
-- spike_interface/dts_parse.c reads, and the calls that a visit of the tree makes.
use lq_os_lab.Base.{
  ℕ, suc, ◌+◌, ◌*◌, ◌/◌, ◌^◌, ◌<◌, ◌≤◌, ◌≡◌, none, some, List, [], ◌∷◌, ◌++◌, length, if◌then◌else◌,
  text,
}
use lq_os_lab.Base.Memory.{Mem}
use lq_os_lab.Util.Strings.{max_string}
use lq_os_lab.Util.Strings.Lexical.{same_text, StandsAt}
use lq_os_lab.World.{World, ok, Cmd, and_then, After}
use lq_os_lab.Spike.Dts.{
  FdtScanNode, FdtScanProp, FdtCb, new_child, swapped, fdt_magic, fdt_version, fdt_begin_node,
  fdt_end_node, fdt_prop, fdt_nop,
}

-- `offset` is that of the name among the strings. `value` is the text that begins at the value, up
-- to a NUL, and `word` the big-endian word there, which counts as a number of cells.
pub record Property : Type 0 where
  pub offset : ℕ
  pub name : List ℕ
  pub len : ℕ
  pub value : List ℕ
  pub word : ℕ

-- What stands before a node's children.
pub data Entry : Type 0 where
  skip : Entry
  property : Property → Entry

-- The children of a node, each with its name, its entries and its own children, up to FDT_END_NODE
-- or to FDT_END.
pub data Children : Type 0 where
  end_node fdt_end : Children
  skip_nop : Children → Children
  child : List ℕ → List Entry → Children → Children → Children

-- Where a property ends.
abbrev pub prop_end : ℕ → Property → ℕ
prop_end lex p = lex + 4 * (3 + (p.len + 3) / 4)

-- Where a node's entries begin, behind its name.
abbrev pub name_end : ℕ → List ℕ → ℕ
name_end lex name = lex + 4 * (2 + length name / 4)

abbrev pub entries_end : ℕ → List Entry → ℕ
entries_end lex [] = lex
entries_end lex (skip ∷ es) = entries_end (lex + 4) es
entries_end lex (property p ∷ es) = entries_end (prop_end lex p) es

abbrev pub children_end : ℕ → Children → ℕ
children_end lex end_node = lex + 4
children_end lex fdt_end = lex
children_end lex (skip_nop c) = children_end (lex + 4) c
children_end lex (child name es sub c) =
    children_end (children_end (entries_end (name_end lex name) es) sub) c

-- The tokens, which are the rounds of the scan.
abbrev pub children_tokens : Children → ℕ
children_tokens end_node = 1
children_tokens fdt_end = 1
children_tokens (skip_nop c) = suc (children_tokens c)
children_tokens (child name es sub c) = suc (length es + children_tokens sub + children_tokens c)

module _ (m : Mem) where
  -- The string `t` in memory.
  abbrev pub IsText : ℕ → List ℕ → Type 0
  IsText p t = StandsAt (λ i. m (p + i)) 0 t × (length t < max_string)

  module _ (strings : ℕ) where
    abbrev pub PropertyAt : ℕ → Property → Type 0
    PropertyAt lex p =
        (swapped m lex ≡ fdt_prop)
        × (swapped m (lex + 4) ≡ p.len)
        × (swapped m (lex + 8) ≡ p.offset)
        × (swapped m (lex + 12) ≡ p.word)
        × (p.len + 3 < 2 ^ 31)
        × IsText (strings + p.offset) p.name
        × IsText (lex + 12) p.value

    abbrev pub EntriesAt : ℕ → List Entry → Type 0
    EntriesAt lex [] = Unit
    EntriesAt lex (skip ∷ es) = (swapped m lex ≡ fdt_nop) × EntriesAt (lex + 4) es
    EntriesAt lex (property p ∷ es) = PropertyAt lex p × EntriesAt (prop_end lex p) es

    -- The structure block from `lex` on.
    abbrev pub ChildrenAt : ℕ → Children → Type 0
    ChildrenAt lex end_node = swapped m lex ≡ fdt_end_node
    ChildrenAt lex fdt_end = swapped m lex ≡ 9
    ChildrenAt lex (skip_nop c) = (swapped m lex ≡ fdt_nop) × ChildrenAt (lex + 4) c
    ChildrenAt lex (child name es sub c) =
        (swapped m lex ≡ fdt_begin_node)
        × IsText (lex + 4) name
        × EntriesAt (name_end lex name) es
        × ChildrenAt (entries_end (name_end lex name) es) sub
        × ChildrenAt (children_end (entries_end (name_end lex name) es) sub) c

-- The header at `fdt` and the structure block.
abbrev pub IsTree : Mem → ℕ → Children → Type 0
IsTree m fdt c =
    (swapped m fdt ≡ fdt_magic)
    × (swapped m (fdt + 24) ≤ fdt_version)
    × ChildrenAt m (fdt + swapped m (fdt + 12)) (fdt + swapped m (fdt + 8)) c

-- The calls of the visit.
pub data Event : Type 0 where
  opened finished : List FdtScanNode → Event
  seen : FdtScanProp → Event

-- A node with the cells that its property gives it.
abbrev pub with_cells : Property → FdtScanNode → FdtScanNode
with_cells p n =
    let a =
      if same_text p.name (text "#address-cells") then record n { address_cells = p.word } else n in
    if same_text p.name (text "#size-cells") then record a { size_cells = p.word } else a

abbrev pub with_entries : List Entry → FdtScanNode → FdtScanNode
with_entries [] n = n
with_entries (skip ∷ es) n = with_entries es n
with_entries (property p ∷ es) n = with_entries es (with_cells p n)

module _ (strings : ℕ) where
  abbrev pub seen_prop : List FdtScanNode → ℕ → Property → FdtScanProp
  seen_prop nodes lex p = record {
    node = nodes;
    name = strings + p.offset;
    value = lex + 12;
    len = p.len;
  }

  -- Each property is shown with the cells that the node has by then.
  abbrev pub entry_events : FdtScanNode → List FdtScanNode → ℕ → List Entry → List Event
  entry_events n parents lex [] = []
  entry_events n parents lex (skip ∷ es) = entry_events n parents (lex + 4) es
  entry_events n parents lex (property p ∷ es) =
      seen (seen_prop (with_cells p n ∷ parents) lex p)
      ∷ entry_events (with_cells p n) parents (prop_end lex p) es

  -- A node is opened, shown its properties, and finished; its children come behind. The first child
  -- begins with the cells of `kid`, and each other with those of the child before it.
  abbrev pub child_events : List FdtScanNode → FdtScanNode → ℕ → Children → List Event
  child_events parents kid lex end_node = []
  child_events parents kid lex fdt_end = []
  child_events parents kid lex (skip_nop c) = child_events parents kid (lex + 4) c
  child_events parents kid lex (child name es sub c) =
      let n = record kid { name = lex + 4 } in
      let full = with_entries es n in
      let inner = entries_end (name_end lex name) es in
      opened (n ∷ parents) ∷ entry_events n parents (name_end lex name) es
      ++ finished (full ∷ parents) ∷ child_events (full ∷ parents) new_child inner sub
      ++ child_events parents full (children_end inner sub) c

-- The calls on the whole tree.
abbrev pub tree_events : Mem → ℕ → Children → List Event
tree_events m fdt c =
    child_events (fdt + swapped m (fdt + 12)) [] new_child (fdt + swapped m (fdt + 8)) c

module _ {X : Type 0} (cb : FdtCb X) where
  -- The callback that an event calls, where there is one.
  abbrev pub handle : Event → X → Cmd X
  handle (opened nodes) x w = elim cb.open_node [ none ↦ ok x w | some o ↦ o nodes x w ]
  handle (finished nodes) x w = elim cb.done [ none ↦ ok x w | some d ↦ d nodes x w ]
  handle (seen p) x w = cb.prop p x w

  abbrev pub perform : List Event → X → Cmd X
  perform [] x w = ok x w
  perform (e ∷ es) x w = and_then (handle e x w) (perform es)

  -- The callbacks leave the memory as it is.
  abbrev pub KeepsMem : Type 0
  KeepsMem = (e : Event) (x : X) (w : World) → After (λ _ v. v.mem ≡ w.mem) (handle e x w)

-- ===== src/Spike/Dts/Visit/Walk.antt =====
-- Visits of a tree whose callbacks return at each node: what they do to the world, node by node.
use mathlib.Core.List.{append_assoc}
use lq_os_lab.Base.{ℕ, ◌+◌, ◌≡◌, refl, sym, ap, ◌∙◌, List, [], ◌∷◌, ◌++◌}
use lq_os_lab.Base.Memory.{Mem}
use lq_os_lab.World.{World, ok}
use lq_os_lab.World.Runs.{and_then-ok}
use lq_os_lab.Spike.Dts.{FdtScanNode, FdtCb, new_child}
use lq_os_lab.Spike.Dts.Tree.{
  Entry, Children, end_node, fdt_end, skip_nop, child, name_end, entries_end, children_end,
  EntriesAt, ChildrenAt, Event, opened, finished, with_entries, entry_events, child_events, perform,
}
use lq_os_lab.Spike.Dts.Visit.{perform-then}

-- A claim about a node: its ancestors, the node as it is opened, where its entries begin, and they.
abbrev pub NodeClaim : Type 1
NodeClaim = List FdtScanNode → FdtScanNode → ℕ → List Entry → Type 0

-- The claim holds of every node.
abbrev pub AllNodes : NodeClaim → List FdtScanNode → FdtScanNode → ℕ → Children → Type 0
AllNodes P parents kid lex end_node = Unit
AllNodes P parents kid lex fdt_end = Unit
AllNodes P parents kid lex (skip_nop c) = AllNodes P parents kid (lex + 4) c
AllNodes P parents kid lex (child name es sub c) =
    let n = record kid { name = lex + 4 } in
    let inner = entries_end (name_end lex name) es in
    P parents n (name_end lex name) es
    × AllNodes P (with_entries es n ∷ parents) new_child inner sub
    × AllNodes P parents (with_entries es n) (children_end inner sub) c

abbrev pub Trivial : NodeClaim
Trivial parents n lex es = Unit

pub AllNodes-trivial :
    (c : Children) (parents : List FdtScanNode) (kid : FdtScanNode) (lex : ℕ)
    → AllNodes Trivial parents kid lex c
AllNodes-trivial end_node parents kid lex = tt
AllNodes-trivial fdt_end parents kid lex = tt
AllNodes-trivial (skip_nop c) parents kid lex = AllNodes-trivial c parents kid (lex + 4)
AllNodes-trivial (child name es sub c) parents kid lex =
    (tt, AllNodes-trivial sub _ _ _, AllNodes-trivial c _ _ _)

-- What the visit of a node does to the world.
abbrev pub NodeEffect : Type 1
NodeEffect = List FdtScanNode → FdtScanNode → ℕ → List Entry → World → World → Type 0

-- The effects of the nodes, one after another.
abbrev pub Walked :
    NodeEffect → List FdtScanNode → FdtScanNode → ℕ → Children → World → World → Type 0
Walked E parents kid lex end_node w v = v ≡ w
Walked E parents kid lex fdt_end w v = v ≡ w
Walked E parents kid lex (skip_nop c) w v = Walked E parents kid (lex + 4) c w v
Walked E parents kid lex (child name es sub c) w v =
    let n = record kid { name = lex + 4 } in
    let inner = entries_end (name_end lex name) es in
    (u : World) × (t : World) × E parents n (name_end lex name) es w u
    × Walked E (with_entries es n ∷ parents) new_child inner sub u t
    × Walked E parents (with_entries es n) (children_end inner sub) c t v

module _ {X : Type 0} (cb : FdtCb X) (strings : ℕ) (m : Mem) where
  -- The calls at one node, its children apart.
  abbrev pub node_events : List FdtScanNode → FdtScanNode → ℕ → List Entry → List Event
  node_events parents n lex es =
      opened (n ∷ parents) ∷ entry_events strings n parents lex es
      ++ finished (with_entries es n ∷ parents) ∷ []

  -- The visit of one node returns, with its effect.
  abbrev pub Returns : NodeClaim → NodeEffect → Type 0
  Returns P E =
      (parents : List FdtScanNode) (n : FdtScanNode) (lex : ℕ) (es : List Entry) (x : X) (w : World)
      → w.mem ≡ m
      → EntriesAt m strings lex es
      → P parents n lex es
      → (y : X) × (v : World) × (perform cb (node_events parents n lex es) x w ≡ ok y v)
        × (v.mem ≡ m)
        × E parents n lex es w v

  pub walk :
      (P : NodeClaim) (E : NodeEffect)
      → Returns P E
      → (c : Children) (parents : List FdtScanNode) (kid : FdtScanNode) (lex : ℕ) (x : X)
        (w : World)
      → w.mem ≡ m
      → ChildrenAt m strings lex c
      → AllNodes P parents kid lex c
      → (y : X) × (v : World) × (perform cb (child_events strings parents kid lex c) x w ≡ ok y v)
        × (v.mem ≡ m)
        × Walked E parents kid lex c w v
  walk P E one end_node parents kid lex x w e l s = (x, w, refl, e, refl)
  walk P E one fdt_end parents kid lex x w e l s = (x, w, refl, e, refl)
  walk P E one (skip_nop c) parents kid lex x w e l s =
      walk P E one c parents kid (lex + 4) x w e l.1 s
  walk P E one (child name es sub c) parents kid lex x w e l s =
      let n = record kid { name = lex + 4 } in
      let full = with_entries es n in
      let inner = entries_end (name_end lex name) es in
      let stop = children_end inner sub in
      let subs = child_events strings (full ∷ parents) new_child inner sub in
      let rest = child_events strings parents full stop c in
      let before = opened (n ∷ parents) ∷ entry_events strings n parents (name_end lex name) es in
      let (y, u, r, k, effect) = one parents n (name_end lex name) es x w e l.2 s.0 in
      let (z, t, r', k', inside) =
        walk P E one sub (full ∷ parents) new_child inner y u k l.3 s.1 in
      let (a, v, r'', k'', behind) = walk P E one c parents full stop z t k' l.4 s.2 in
      (
        a,
        v,
        perform-then cb strings (before ++ finished (full ∷ parents) ∷ subs) rest x w
            ∙ and_then-ok _ (perform cb rest) z t (
                ap (λ es. perform cb es x w)
                  (sym (append_assoc before (finished (full ∷ parents) ∷ []) subs))
                ∙ perform-then cb strings (before ++ finished (full ∷ parents) ∷ []) subs x w
                ∙ and_then-ok _ (perform cb subs) y u r
                ∙ r')
            ∙ r'',
        k'',
        (u, t, effect, inside, behind),
      )

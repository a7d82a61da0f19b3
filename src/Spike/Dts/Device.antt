-- ===== src/Spike/Dts/Device.antt =====
-- The search of spike_interface/spike_htif.c for the host interface in a device tree.
use mathlib.Core.Path.{subst}
use lq_os_lab.Base.{
  ℕ, ◌+◌, ◌≤◌, ◌≡◌, refl, sym, ap, ◌∙◌, arith, Bool, true, false, ◌||◌, List, [], ◌∷◌,
  if◌then◌else◌, text, inl, inr, Bool-cases, or_swap, or_false,
}
use lq_os_lab.Base.Memory.{Mem}
use lq_os_lab.World.{World, ok, and_then}
use lq_os_lab.World.Runs.{and_then-ok, After-and_then}
use lq_os_lab.Spike.Dts.{FdtScanNode, swapped, new_child}
use lq_os_lab.Spike.Dts.Query.{
  HtifScan, both_are, htif_open, htif_prop, htif_done, htif_cb, query_htif,
}
use lq_os_lab.Spike.Dts.Tree.{
  Property, Entry, skip, property, Children, end_node, fdt_end, skip_nop, child, prop_end,
  EntriesAt, PropertyAt, children_tokens, IsTree, opened, finished, seen, with_cells, with_entries,
  entry_events, seen_prop, perform, KeepsMem,
}
use lq_os_lab.Spike.Dts.Visit.{perform-then}
use lq_os_lab.Spike.Dts.Visit.Nodes.{fdt_scan-visit}
use lq_os_lab.Spike.Dts.Visit.Walk.{NodeEffect, Walked, Returns, AllNodes-trivial, Trivial, walk}
use lq_os_lab.Spike.Dts.Says.{says, some_entry, some_node, both_are-says, Keeps, both_are-Keeps}

-- A node that says that it is the host interface.
abbrev pub is_htif : List Entry → Bool
is_htif = some_entry (says (text "compatible") (text "ucb,htif0"))

abbrev pub found : Bool → World → World
found b w = record w { htif = if b then 1 else w.htif }

abbrev HtifEffect : NodeEffect
HtifEffect parents n lex es w v = v ≡ found (is_htif es) w

marks :
    (b : Bool) (scan : HtifScan) (w : World)
    → ok (if b then record { compat = true } else scan) w
      ≡ ok (record { compat = b || scan.compat }) w
marks true scan w = refl
marks false scan w = refl

htif_prop-says :
    (strings lex : ℕ) (nodes : List FdtScanNode) (p : Property) (scan : HtifScan) (w : World)
    → PropertyAt w.mem strings lex p
    → htif_prop (seen_prop strings nodes lex p) scan w
      ≡ ok (record { compat = says (text "compatible") (text "ucb,htif0") p || scan.compat }) w
unfolding htif_prop
htif_prop-says strings lex nodes p scan w h =
    ap (λ r. and_then r λ b. ok (if b then record { compat = true } else scan))
      (both_are-says (text "compatible") (text "ucb,htif0") strings lex p w (ground arith)
        (ground arith) h)
    ∙ marks (says (text "compatible") (text "ucb,htif0") p) scan w

htif-entries :
    (strings : ℕ) (es : List Entry) (n : FdtScanNode) (parents : List FdtScanNode) (lex : ℕ)
    (scan : HtifScan) (w : World)
    → EntriesAt w.mem strings lex es
    → perform htif_cb (entry_events strings n parents lex es) scan w
      ≡ ok (record { compat = scan.compat || is_htif es }) w
unfolding htif_cb
htif-entries strings [] n parents lex scan w l =
    ap (λ b. ok (record { compat = b }) w) (or_false scan.compat)
htif-entries strings (skip ∷ es) n parents lex scan w l =
    htif-entries strings es n parents (lex + 4) scan w l.1
htif-entries strings (property p ∷ es) n parents lex scan w l =
    let here = says (text "compatible") (text "ucb,htif0") p in
    ap
      (λ r.
        and_then r
          (perform htif_cb (entry_events strings (with_cells p n) parents (prop_end lex p) es)))
      (htif_prop-says strings lex (with_cells p n ∷ parents) p scan w l.0)
    ∙ htif-entries strings es (with_cells p n) parents (prop_end lex p)
        (record { compat = here || scan.compat }) w l.1
    ∙ ap (λ b. ok (record { compat = b }) w) (or_swap here scan.compat (is_htif es))

htif_done-found :
    (b : Bool) (nodes : List FdtScanNode) (w : World)
    → htif_done nodes (record { compat = b }) w ≡ ok (record { compat = b }) (found b w)
unfolding htif_done
htif_done-found true nodes w = refl
htif_done-found false nodes w = refl

htif-Returns : (strings : ℕ) (m : Mem) → Returns htif_cb strings m Trivial HtifEffect
unfolding htif_cb htif_open
htif-Returns strings m parents n lex es scan w e l s =
    let scan' : HtifScan = record { compat = is_htif es } in
    let full = with_entries es n in
    (
      scan',
      found (is_htif es) w,
      perform-then htif_cb strings (opened (n ∷ parents) ∷ entry_events strings n parents lex es)
            (finished (full ∷ parents) ∷ []) scan w
          ∙ and_then-ok _ (perform htif_cb (finished (full ∷ parents) ∷ [])) scan' w (
              htif-entries strings es n parents lex (record { compat = false }) w
                (subst (λ m. EntriesAt m strings lex es) (sym e) l))
          ∙ ap (λ r. and_then r (perform htif_cb []))
              (htif_done-found (is_htif es) (full ∷ parents) w),
      e,
      refl,
    )

found_twice : (a b : Bool) (w : World) → found b (found a w) ≡ found (a || b) w
found_twice true true w = refl
found_twice true false w = refl
found_twice false b w = refl

Walked-found :
    (c : Children) (parents : List FdtScanNode) (kid : FdtScanNode) (lex : ℕ) (w v : World)
    → Walked HtifEffect parents kid lex c w v
    → v ≡ found (some_node is_htif c) w
Walked-found end_node parents kid lex w v h = h
Walked-found fdt_end parents kid lex w v h = h
Walked-found (skip_nop c) parents kid lex w v h = Walked-found c parents kid (lex + 4) w v h
Walked-found (child name es sub c) parents kid lex w v (u, t, effect, inside, behind) =
    Walked-found c _ _ _ t v behind
    ∙ ap (found (some_node is_htif c)) (Walked-found sub _ _ _ u t inside)
    ∙ ap (λ u. found (some_node is_htif c) (found (some_node is_htif sub) u)) effect
    ∙ ap (found (some_node is_htif c)) (found_twice (is_htif es) (some_node is_htif sub) w)
    ∙ found_twice (is_htif es || some_node is_htif sub) (some_node is_htif c) w

pub htif-KeepsMem : KeepsMem htif_cb
unfolding htif_cb htif_open htif_prop htif_done
htif-KeepsMem (opened nodes) scan w = refl
htif-KeepsMem (finished nodes) scan w = elim (Bool-cases scan.compat) [
  | inl yes' ↦ rw yes' refl
  | inr no' ↦ rw no' refl
]
htif-KeepsMem (seen p) scan w =
    After-and_then (Keeps w) (Keeps w) (both_are _ _ _ _ w) _ (both_are-Keeps _ _ _ _ w) λ b v e. e

-- On a device tree, with a round for each token, `query_htif` returns, and the host interface is
-- marked as found exactly where some node is "compatible" with "ucb,htif0"; nothing else changes.
pub query_htif-finds :
    (f fdt : ℕ) (scan : HtifScan) (c : Children) (w : World)
    → IsTree w.mem fdt c
    → children_tokens c ≤ f
    → query_htif f scan fdt w ≡ ok tt (found (some_node is_htif c) w)
unfolding query_htif htif_cb
query_htif-finds f fdt scan c w t enough =
    let strings = fdt + swapped w.mem (fdt + 12) in
    let struct = fdt + swapped w.mem (fdt + 8) in
    let (s, v, r, k, walked) =
      walk htif_cb strings w.mem Trivial HtifEffect (htif-Returns strings w.mem) c [] new_child
        struct scan w refl t.2 (AllNodes-trivial c _ _ _) in
    ap (λ r. and_then r λ s. ok tt)
      (fdt_scan-visit htif_cb f fdt c scan w htif-KeepsMem refl t enough ∙ r)
    ∙ ap (ok tt) (Walked-found c [] new_child struct w v walked)

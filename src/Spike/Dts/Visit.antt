-- ===== src/Spike/Dts/Visit.antt =====
-- The scan of spike_interface/dts_parse.c on what a tree lays out: its tokens, and the entries of a
-- node.
pub mod Nodes
pub mod Walk
use mathlib.Core.Path.{subst}
use lq_os_lab.Base.{
  ◌↔◌, ◌≢◌, Bool-cases, inl, inr, ℕ, zero, suc, ◌+◌, ◌*◌, ◌/◌, ◌^◌, ◌<◌, ◌≤◌, ◌≡◌, refl, sym, ap,
  ◌∙◌, arith, Bool, true, false, Option, none, some, List, [], ◌∷◌, ◌++◌, length, if◌then◌else◌,
  text, ◌==◌, ltb, Bool-cases, inl, inr,
}
use lq_os_lab.Base.Memory.{Mem}
use lq_os_lab.Util.Strings.{literal, strlen, max_string}
use lq_os_lab.Util.Strings.Lexical.{
  same_text, same_text-eq, same_text_self, StandsAt, Order, sign, lexical, equal, less, greater,
  strlen-length, strcmp-lexical,
}
use lq_os_lab.World.{World, Run, ok, halted, fault, diverges, Cmd, and_then, defined, After}
use lq_os_lab.World.Runs.{
  and_then-ok, and_then_assoc, and_then-After, After-and_then, and_then_pure,
}
use lq_os_lab.Spike.Dts.{
  FdtScanNode, FdtScanProp, FdtCb, Scanned, new_child, swapped, fdt_scan, fdt_scan_helper,
  fdt_version, fdt_begin_node, fdt_end_node, fdt_prop, fdt_nop, call_open, call_done,
  set_address_cells, set_size_cells, call_close, text_is, node_text_is, after_prop, scan_prop,
  scan_begin, scan_loop,
}
use lq_os_lab.Spike.Dts.Tree.{
  Property, Entry, skip, property, Children, end_node, fdt_end, skip_nop, child, prop_end, name_end,
  entries_end, children_end, children_tokens, IsTree, tree_events, IsText, PropertyAt, EntriesAt,
  ChildrenAt, Event, opened, finished, seen, with_cells, with_entries, seen_prop, entry_events,
  child_events, handle, perform, KeepsMem,
}
use lq_os_lab.Util.Strings.Lexical.{same_text}

zero-same : (d : ℕ) (t s : List ℕ) → (d ≡ 0) ↔ (t ≡ s) → (d == 0) ≡ same_text t s
zero-same d t s h = elim (Bool-cases (same_text t s)) [
  | inl yes' ↦ let z = h.1 (same_text-eq t s yes') in rw yes' (ground arith)
  | inr no' ↦
      let z : d ≢ 0 = λ e.
        let y : same_text t s ≡ true = sym (ap (same_text t) (h.0 e)) ∙ same_text_self t in
        ground arith in
      rw no' (ground arith)
]

pub text_is-same :
    (p : ℕ) (t s : List ℕ) (w : World)
    → IsText w.mem p t
    → StandsAt (literal s) 0 s
    → text_is p s w ≡ ok (same_text t s) w
unfolding text_is
text_is-same p t s w h l =
    let (d, e, o, same) = strcmp-lexical (λ i. w.mem (p + i)) (literal s) t s h.0 l h.1 in
    ap (λ r. and_then (defined r w) (λ d. ok (d == 0))) e ∙ ap (λ b. ok b w) (zero-same d t s same)

set-with_cells :
    (a b : Bool) (v : ℕ) (n : FdtScanNode) (ns : List FdtScanNode)
    → (let with_address = if a then set_address_cells v (n ∷ ns) else n ∷ ns in
        if b then set_size_cells v with_address else with_address)
      ≡ (let r = if a then record n { address_cells = v } else n in
          if b then record r { size_cells = v } else r)
        ∷ ns
set-with_cells true true v n ns = refl
set-with_cells true false v n ns = refl
set-with_cells false true v n ns = refl
set-with_cells false false v n ns = refl

module _ {X : Type 0} (cb : FdtCb X) (strings : ℕ) where
  pub perform-append :
      {B : Type 0} (es fs : List Event) (x : X) (w : World) (k : X → Cmd B)
      → and_then (perform cb (es ++ fs) x w) k
        ≡ and_then (perform cb es x w) (λ y v. and_then (perform cb fs y v) k)
  perform-append [] fs x w k = refl
  perform-append (e ∷ es) fs x w k =
      and_then_assoc (handle cb e x w) (perform cb (es ++ fs)) k
      ∙ (λ i. and_then (handle cb e x w) (λ y v. perform-append es fs y v k i))
      ∙ sym (and_then_assoc (handle cb e x w) (perform cb es) _)

  pub perform-then :
      (es fs : List Event) (x : X) (w : World)
      → perform cb (es ++ fs) x w ≡ and_then (perform cb es x w) (perform cb fs)
  perform-then es fs x w =
      sym (and_then_pure (perform cb (es ++ fs) x w))
      ∙ perform-append es fs x w (λ y. ok y)
      ∙ (λ i. and_then (perform cb es x w) (λ y v. and_then_pure (perform cb fs y v) i))

  module _ (f : ℕ) (nodes : List FdtScanNode) (kid : FdtScanNode) (last : Bool) (lex : ℕ) (x : X)
      (w : World) where
    pub round-nop :
        swapped w.mem lex ≡ fdt_nop
        → scan_loop cb strings (suc f) nodes kid last lex x w
          ≡ scan_loop cb strings f nodes kid last (lex + 4) x w
    unfolding scan_loop
    round-nop h = rw (scan_loop, h) refl

    pub round-prop :
        swapped w.mem lex ≡ fdt_prop
        → scan_loop cb strings (suc f) nodes kid last lex x w
          ≡ scan_prop cb strings (scan_loop cb strings f) nodes kid last lex x w
    unfolding scan_loop
    round-prop h = rw (scan_loop, h) refl

    pub round-begin :
        swapped w.mem lex ≡ fdt_begin_node
        → scan_loop cb strings (suc f) nodes kid last lex x w
          ≡ scan_begin cb strings (scan_loop cb strings f) nodes kid last lex x w
    unfolding scan_loop
    round-begin h = rw (scan_loop, h) refl

    pub round-end :
        swapped w.mem lex ≡ fdt_end_node
        → scan_loop cb strings (suc f) nodes kid last lex x w
          ≡ and_then
              (call_done cb strings last nodes x w)
              λ x'. ok (record { lex = lex + 4; nodes = nodes; extra = x' })
    unfolding scan_loop
    round-end h = rw (scan_loop, h) refl

    pub round-stop :
        swapped w.mem lex ≡ 9
        → scan_loop cb strings (suc f) nodes kid last lex x w
          ≡ and_then
              (call_done cb strings last nodes x w)
              λ x'. ok (record { lex = lex; nodes = nodes; extra = x' })
    unfolding scan_loop
    round-stop h = rw (scan_loop, h) refl

  scan_prop-seen :
      (loop : List FdtScanNode → FdtScanNode → Bool → ℕ → X → Cmd (Scanned X)) (n : FdtScanNode)
      (parents : List FdtScanNode) (kid : FdtScanNode) (lex : ℕ) (p : Property) (x : X) (w : World)
      → PropertyAt w.mem strings lex p
      → scan_prop cb strings loop (n ∷ parents) kid false lex x w
        ≡ and_then
            (cb.prop (seen_prop strings (with_cells p n ∷ parents) lex p) x w)
            (loop (with_cells p n ∷ parents) kid false (prop_end lex p))
  unfolding scan_prop node_text_is after_prop
  scan_prop-seen loop n parents kid lex p x w h =
      let a =
        text_is-same (strings + p.offset) p.name (text "#address-cells") w h.5 (ground arith) in
      let b = text_is-same (strings + p.offset) p.name (text "#size-cells") w h.5 (ground arith) in
      let s : ltb (p.len + 3) (2 ^ 31) ≡ true = ground (arith, h.4) in
      rw (scan_prop, node_text_is, after_prop, h.1, h.2, a, b, h.3, s)
        (ap
          (λ nodes.
            and_then (cb.prop (seen_prop strings nodes lex p) x w)
              (loop nodes kid false (prop_end lex p)))
          (set-with_cells (same_text p.name (text "#address-cells"))
            (same_text p.name (text "#size-cells")) p.word n parents))

  module _ (keeps : KeepsMem cb) (m : Mem) where
    pub entries-visit :
        (es : List Entry) (f c : ℕ) (n : FdtScanNode) (parents : List FdtScanNode)
        (kid : FdtScanNode) (lex : ℕ) (x : X) (w : World) (k : X → Cmd (Scanned X))
        → length es + c ≤ f
        → w.mem ≡ m
        → EntriesAt m strings lex es
        → ((g : ℕ) (y : X) (v : World)
            → c ≤ g
            → v.mem ≡ m
            → scan_loop cb strings g
                (with_entries es n ∷ parents)
                kid
                false
                (entries_end lex es)
                y
                v
              ≡ k y v)
        → scan_loop cb strings f (n ∷ parents) kid false lex x w
          ≡ and_then (perform cb (entry_events strings n parents lex es) x w) k
    entries-visit [] f c n parents kid lex x w k h e l rest = rest f x w (omega arith) e
    entries-visit (s ∷ es) zero c n parents kid lex x w k h e l rest = absurd (omega arith)
    entries-visit (skip ∷ es) (suc f) c n parents kid lex x w k h e l rest =
        round-nop f (n ∷ parents) kid false lex x w (ap (λ m. swapped m lex) e ∙ l.0)
        ∙ entries-visit es f c n parents kid (lex + 4) x w k (omega arith) e l.1 rest
    entries-visit (property p ∷ es) (suc f) c n parents kid lex x w k h e l rest =
        round-prop f (n ∷ parents) kid false lex x w (ap (λ m. swapped m lex) e ∙ l.0.0)
        ∙ scan_prop-seen (scan_loop cb strings f) n parents kid lex p x w
            (subst (λ m. PropertyAt m strings lex p) (sym e) l.0)
        ∙ and_then-After (λ _ v. v.mem ≡ w.mem) _ _ _
            (keeps (seen (seen_prop strings (with_cells p n ∷ parents) lex p)) x w)
            (λ y v same.
              entries-visit es f c (with_cells p n) parents kid (prop_end lex p) y v k (omega arith)
                (same ∙ e) l.1 rest)
        ∙ sym (
            and_then_assoc
              (handle cb (seen (seen_prop strings (with_cells p n ∷ parents) lex p)) x w)
              (perform cb (entry_events strings (with_cells p n) parents (prop_end lex p) es)) k)

    pub call_done-keeps :
        (last : Bool) (nodes : List FdtScanNode) (x : X) (w : World)
        → After (λ _ v. v.mem ≡ w.mem) (call_done cb strings last nodes x w)
    unfolding call_done
    call_done-keeps true nodes x w = refl
    call_done-keeps false [] x w = refl
    call_done-keeps false (n ∷ ns) x w = keeps (finished (n ∷ ns)) x w

    pub perform-keeps :
        (es : List Event) (x : X) (w : World)
        → w.mem ≡ m
        → After (λ _ v. v.mem ≡ m) (perform cb es x w)
    perform-keeps [] x w e = e
    perform-keeps (s ∷ es) x w e =
        After-and_then (λ _ v. v.mem ≡ w.mem) (λ _ v. v.mem ≡ m) (handle cb s x w) (perform cb es)
          (keeps s x w) (λ y v same. perform-keeps es y v (same ∙ e))

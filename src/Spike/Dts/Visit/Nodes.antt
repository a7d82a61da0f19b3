-- ===== src/Spike/Dts/Visit/Nodes.antt =====
-- The scan of spike_interface/dts_parse.c on the nodes of a tree, and on the whole.
use mathlib.Core.Path.{subst}
use lq_os_lab.Base.{
  ℕ, zero, suc, ◌+◌, ◌*◌, ◌/◌, ◌≤◌, ◌≡◌, refl, sym, ap, ◌∙◌, arith, Bool, true, false, none, List,
  [], ◌∷◌, ◌++◌, ltb,
}
use lq_os_lab.Base.Memory.{Mem}
use lq_os_lab.Util.Strings.Lexical.{StandsAt, strlen-length}
use lq_os_lab.World.{World, ok, fault, Cmd, and_then, defined}
use lq_os_lab.World.Runs.{and_then_assoc, and_then-After, and_then_pure}
use lq_os_lab.Spike.Dts.{
  FdtScanNode, FdtCb, Scanned, new_child, swapped, fdt_scan, fdt_scan_helper, fdt_version,
  call_open, call_done, call_close, scan_begin, scan_loop,
}
use lq_os_lab.Spike.Dts.Tree.{
  Children, end_node, fdt_end, skip_nop, child, name_end, entries_end, children_end,
  children_tokens, IsTree, tree_events, IsText, ChildrenAt, Event, opened, finished, with_entries,
  entry_events, child_events, handle, perform, KeepsMem,
}
use lq_os_lab.Spike.Dts.Visit.{
  round-nop, round-begin, round-end, round-stop, perform-append, entries-visit, call_done-keeps,
  perform-keeps,
}

-- The end of a scan.
abbrev stopped : {X : Type 0} → ℕ → List FdtScanNode → X → Cmd (Scanned X)
stopped lex nodes x = ok (record { lex = lex; nodes = nodes; extra = x })

module _ {X : Type 0} (cb : FdtCb X) (strings : ℕ) where
  module _ (keeps : KeepsMem cb) (m : Mem) where
    finish :
        (n : FdtScanNode) (parents : List FdtScanNode) (es : List Event) (x : X) (w : World)
        (k : X → Cmd (Scanned X))
        → and_then
            (call_done cb strings false (n ∷ parents) x w)
            (λ y v. and_then (perform cb es y v) k)
          ≡ and_then (perform cb (finished (n ∷ parents) ∷ es) x w) k
    unfolding call_done
    finish n parents es x w k =
        sym (and_then_assoc (handle cb (finished (n ∷ parents)) x w) (perform cb es) k)

    module _ (keeps_all : cb.close ≡ none) where
      call_close-none :
          (lex stop : ℕ) (nodes : List FdtScanNode) (x : X) (w : World)
          → call_close cb strings lex stop nodes x w ≡ ok x w
      unfolding call_close
      call_close-none lex stop nodes x w = rw (call_close, keeps_all) refl

      -- A child whose scan, and the scan that follows it, are known.
      scan_begin-visit :
          (loop : List FdtScanNode → FdtScanNode → Bool → ℕ → X → Cmd (Scanned X))
          (nodes : List FdtScanNode) (kid full : FdtScanNode) (last : Bool) (lex stop : ℕ)
          (name : List ℕ) (es : List Event) (x : X) (w : World) (k : X → Cmd (Scanned X))
          → w.mem ≡ m
          → IsText m (lex + 4) name
          → ((y : X) (v : World)
              → v.mem ≡ m
              → loop (record kid { name = lex + 4 } ∷ nodes) new_child false (name_end lex name) y v
                ≡ and_then (perform cb es y v) (stopped stop (full ∷ nodes)))
          → ((y : X) (v : World) → v.mem ≡ m → loop nodes full true stop y v ≡ k y v)
          → scan_begin cb strings loop nodes kid last lex x w
            ≡ and_then (call_done cb strings last nodes x w) λ y v.
              and_then (perform cb (opened (record kid { name = lex + 4 } ∷ nodes) ∷ es) y v) k
      unfolding scan_begin call_open
      scan_begin-visit loop nodes kid full last lex stop name es x w k e t inside behind =
          let n = record kid { name = lex + 4 } in
          let resume : Scanned X → Cmd (Scanned X) = λ r u. elim r.nodes [
            | [] ↦ fault
            | child' ∷ nodes' ↦
                and_then (call_close cb strings lex r.lex (child' ∷ nodes') r.extra u)
                  (loop nodes' child' true r.lex)
          ] in
          and_then-After (λ _ v. v.mem ≡ w.mem) _ _ _
            (call_done-keeps cb strings keeps m last nodes x w)
            λ y v same.
              and_then-After (λ _ u. u.mem ≡ v.mem) _ _ _ (keeps (opened (n ∷ nodes)) y v)
                (λ z u same'.
                  let there : u.mem ≡ m = same' ∙ same ∙ e in
                  ap
                    (λ r. and_then (defined r u) λ i o.
                      and_then (loop (n ∷ nodes) new_child false (lex + 4 * (2 + i / 4)) z o)
                        resume)
                    (strlen-length (λ i. u.mem (lex + 4 + i)) name
                      (subst (λ m. StandsAt (λ i. m (lex + 4 + i)) 0 name) (sym there) t.0) t.1)
                  ∙ ap (λ r. and_then r resume) (inside z u there)
                  ∙ and_then_assoc (perform cb es z u) (stopped stop (full ∷ nodes)) resume
                  ∙ and_then-After (λ _ v. v.mem ≡ m) _ _ _
                      (perform-keeps cb strings keeps m es z u there)
                      (λ a o kept.
                        ap (λ r. and_then r (loop nodes full true stop))
                          (call_close-none lex stop (full ∷ nodes) a o)
                        ∙ behind a o kept))
              ∙ sym (and_then_assoc (handle cb (opened (n ∷ nodes)) y v) (perform cb es) k)

      children-visit :
          (c : Children) (f : ℕ) (nodes : List FdtScanNode) (kid : FdtScanNode) (last : Bool)
          (lex : ℕ) (x : X) (w : World)
          → children_tokens c ≤ f
          → w.mem ≡ m
          → ChildrenAt m strings lex c
          → scan_loop cb strings f nodes kid last lex x w
            ≡ and_then (call_done cb strings last nodes x w) (λ y v.
              and_then
                (perform cb (child_events strings nodes kid lex c) y v)
                (stopped (children_end lex c) nodes))
      unfolding call_done
      children-visit end_node zero nodes kid last lex x w h e l = absurd (omega arith)
      children-visit fdt_end zero nodes kid last lex x w h e l = absurd (omega arith)
      children-visit (skip_nop c) zero nodes kid last lex x w h e l = absurd (omega arith)
      children-visit (child name es sub c) zero nodes kid last lex x w h e l = absurd (omega arith)
      children-visit end_node (suc f) nodes kid last lex x w h e l =
          round-end cb strings f nodes kid last lex x w (ap (λ m. swapped m lex) e ∙ l)
      children-visit fdt_end (suc f) nodes kid last lex x w h e l =
          round-stop cb strings f nodes kid last lex x w (ap (λ m. swapped m lex) e ∙ l)
      children-visit (skip_nop c) (suc f) nodes kid last lex x w h e l =
          round-nop cb strings f nodes kid last lex x w (ap (λ m. swapped m lex) e ∙ l.0)
          ∙ children-visit c f nodes kid last (lex + 4) x w (omega arith) e l.1
      children-visit (child name es sub c) (suc f) nodes kid last lex x w h e l =
          let n = record kid { name = lex + 4 } in
          let full = with_entries es n in
          let inner = entries_end (name_end lex name) es in
          let stop = children_end inner sub in
          let ents = entry_events strings n nodes (name_end lex name) es in
          let subs = child_events strings (full ∷ nodes) new_child inner sub in
          let rest = child_events strings nodes full stop c in
          round-begin cb strings f nodes kid last lex x w (ap (λ m. swapped m lex) e ∙ l.0)
          ∙ scan_begin-visit (scan_loop cb strings f) nodes kid full last lex stop name
              (ents ++ finished (full ∷ nodes) ∷ subs) x w
              (λ y v. and_then (perform cb rest y v) (stopped (children_end stop c) nodes)) e l.1
              (λ y v there.
                entries-visit cb strings keeps m es f (children_tokens sub) n nodes new_child
                  (name_end lex name) y v
                  (λ z u.
                    and_then (perform cb (finished (full ∷ nodes) ∷ subs) z u)
                      (stopped stop (full ∷ nodes)))
                  (omega arith) there l.2
                  (λ g z u enough here.
                    children-visit sub g (full ∷ nodes) new_child false inner z u enough here l.3
                    ∙ finish full nodes subs z u (stopped stop (full ∷ nodes)))
                ∙ sym (
                    perform-append cb strings ents (finished (full ∷ nodes) ∷ subs) y v
                      (stopped stop (full ∷ nodes))))
              (λ y v there. children-visit c f nodes full true stop y v (omega arith) there l.4)
          ∙ (λ i. and_then (call_done cb strings last nodes x w) λ y v.
              sym
                (perform-append cb strings
                  (opened (n ∷ nodes) ∷ ents ++ finished (full ∷ nodes) ∷ subs) rest y v
                  (stopped (children_end stop c) nodes))
                i)

-- On memory that holds a tree, with a round for each token, and for callbacks without a `close` that
-- leave the memory as it is, the scan has the outcome of the visit: its calls in their order, their
-- own failures included, and no others.
pub fdt_scan-visit :
    {X : Type 0} (cb : FdtCb X) (f fdt : ℕ) (c : Children) (x : X) (w : World)
    → KeepsMem cb
    → cb.close ≡ none
    → IsTree w.mem fdt c
    → children_tokens c ≤ f
    → fdt_scan f fdt cb x w ≡ perform cb (tree_events w.mem fdt c) x w
unfolding fdt_scan fdt_scan_helper call_done
fdt_scan-visit {X} cb f fdt c x w keeps none_deleted t enough =
    let strings = fdt + swapped w.mem (fdt + 12) in
    let struct = fdt + swapped w.mem (fdt + 8) in
    let understood : ltb fdt_version (swapped w.mem (fdt + 24)) ≡ false = ground (arith, t.1) in
    let extra : Scanned X → Cmd X = λ r. ok r.extra in
    rw (fdt_scan, t.0, understood)
      (ap (λ r. and_then r extra)
          (children-visit cb strings keeps w.mem none_deleted c f [] new_child false struct x w
            enough refl t.2)
        ∙ and_then_assoc (perform cb (tree_events w.mem fdt c) x w)
            (stopped (children_end struct c) []) extra
        ∙ and_then_pure (perform cb (tree_events w.mem fdt c) x w))

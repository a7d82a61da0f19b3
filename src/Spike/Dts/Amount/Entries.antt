-- ===== src/Spike/Dts/Amount/Entries.antt =====
-- The callbacks of spike_interface/spike_memory.c at one node of a device tree.
use mathlib.Core.Path.{subst}
use lq_os_lab.Base.{
  ℕ, ◌/◌, ◌+◌, ◌≡◌, refl, sym, ap, ◌∙◌, arith, Bool, true, false, ◌||◌, List, [], ◌∷◌,
  if◌then◌else◌, text, inl, inr, Bool-cases, ◌&&◌, or_swap, or_false,
}
use lq_os_lab.Base.Memory.{Mem, IsBytes}
use lq_os_lab.World.{World, ok, and_then}
use lq_os_lab.World.Runs.{and_then-ok}
use lq_os_lab.Spike.Dts.{FdtScanNode}
use lq_os_lab.Spike.Dts.Query.{MemScan, mem_open, mem_prop, mem_done, mem_cb}
use lq_os_lab.Spike.Dts.Covering.{cells, mem_done-covering}
use lq_os_lab.Spike.Dts.Tree.{
  Property, Entry, skip, property, prop_end, EntriesAt, PropertyAt, opened, finished, with_cells,
  with_entries, entry_events, seen_prop, perform,
}
use lq_os_lab.Util.Strings.Lexical.{same_text, same_text-eq}
use lq_os_lab.Spike.Dts.Visit.{text_is-same, perform-then}
use lq_os_lab.Spike.Dts.Visit.Walk.{NodeEffect, Returns}
use lq_os_lab.Spike.Dts.Says.{says, both_are-says}
use lq_os_lab.Spike.Dts.Amount.{is_memory, reg_of, RegIsSound, node_size, sized, MemoryIsSound}

abbrev pub mem_scan : Bool → ℕ × ℕ → MemScan
mem_scan b r = record { memory = b; reg_value = r.0; reg_len = r.1 }

not_reg : (t : List ℕ) → same_text t (text "device_type") ≡ true → same_text t (text "reg") ≡ false
unfolding same_text
not_reg t h = rw (same_text-eq t (text "device_type") h) refl

reg_if :
    (c b : Bool) (r q : ℕ × ℕ) (w : World)
    → ok (if c then record (mem_scan b r) { reg_value = q.0; reg_len = q.1 } else mem_scan b r) w
      ≡ ok (mem_scan b (if c then q else r)) w
reg_if true b r q w = refl
reg_if false b r q w = refl

and_left : (a b : Bool) → a && b ≡ true → a ≡ true
and_left true b h = refl
and_left false b h = h

mem_prop-step :
    (strings lex : ℕ) (nodes : List FdtScanNode) (p : Property) (b : Bool) (r : ℕ × ℕ) (w : World)
    → PropertyAt w.mem strings lex p
    → mem_prop (seen_prop strings nodes lex p) (mem_scan b r) w
      ≡ ok
          (mem_scan
            (says (text "device_type") (text "memory") p || b)
            (if same_text p.name (text "reg") then (lex + 12, p.len) else r))
          w
unfolding mem_prop
mem_prop-step strings lex nodes p b r w h =
    let device =
      both_are-says (text "device_type") (text "memory") strings lex p w (ground arith)
        (ground arith) h in
    let reg = text_is-same (strings + p.offset) p.name (text "reg") w h.5 (ground arith) in
    elim (Bool-cases (says (text "device_type") (text "memory") p)) [
      | inl memory ↦
          let other = not_reg p.name (and_left _ _ memory) in
          rw (mem_prop, device, memory, other) refl
      | inr other ↦
          rw (mem_prop, device, other, reg)
            (reg_if (same_text p.name (text "reg")) b r (lex + 12, p.len) w)
    ]

mem-entries :
    (strings : ℕ) (es : List Entry) (n : FdtScanNode) (parents : List FdtScanNode) (lex : ℕ)
    (b : Bool) (r : ℕ × ℕ) (self : ℕ) (w : World)
    → EntriesAt w.mem strings lex es
    → perform (mem_cb self) (entry_events strings n parents lex es) (mem_scan b r) w
      ≡ ok (mem_scan (b || is_memory es) (reg_of r lex es)) w
unfolding mem_cb
mem-entries strings [] n parents lex b r self w l = ap (λ b. ok (mem_scan b r) w) (or_false b)
mem-entries strings (skip ∷ es) n parents lex b r self w l =
    mem-entries strings es n parents (lex + 4) b r self w l.1
mem-entries strings (property p ∷ es) n parents lex b r self w l =
    let here = says (text "device_type") (text "memory") p in
    let r' = if same_text p.name (text "reg") then (lex + 12, p.len) else r in
    ap
      (λ r.
        and_then r (
          perform (mem_cb self)
            (entry_events strings (with_cells p n) parents (prop_end lex p) es)))
      (mem_prop-step strings lex (with_cells p n ∷ parents) p b r w l.0)
    ∙ mem-entries strings es (with_cells p n) parents (prop_end lex p) (here || b) r' self w l.1
    ∙ ap (λ b. ok (mem_scan b (reg_of r' (prop_end lex p) es)) w) (or_swap here b (is_memory es))

abbrev pub MemoryEffect : ℕ → NodeEffect
MemoryEffect self parents n lex es w v =
    v ≡ sized (node_size self (is_memory es) parents (reg_of (0, 0) lex es) w.mem w.g_mem_size) w

mem_done-sized :
    (self : ℕ) (b : Bool) (node : FdtScanNode) (parents : List FdtScanNode) (r : ℕ × ℕ) (w : World)
    → IsBytes w.mem
    → (b ≡ true → RegIsSound parents r)
    → mem_done self (node ∷ parents) (mem_scan b r) w
      ≡ ok (mem_scan b r) (sized (node_size self b parents r w.mem w.g_mem_size) w)
unfolding mem_done
mem_done-sized self false node parents r w bytes sound = refl
mem_done-sized self true node [] r w bytes sound = absurd (sound refl)
mem_done-sized self true node (parent ∷ above) r w bytes sound =
    let (value, small, one, len) = sound refl in
    mem_done-covering self (r.1 / 4 / cells parent) node parent above (mem_scan true r) w bytes refl
      value small one len

pub mem-Returns :
    (self strings : ℕ) (m : Mem)
    → IsBytes m
    → Returns (mem_cb self) strings m MemoryIsSound (MemoryEffect self)
unfolding mem_cb mem_open
mem-Returns self strings m bytes parents n lex es scan w e l s =
    let r = reg_of (0, 0) lex es in
    let scan' = mem_scan (is_memory es) r in
    let full = with_entries es n in
    let done =
      mem_done-sized self (is_memory es) full parents r w (subst IsBytes (sym e) bytes) s in
    (
      scan',
      _,
      perform-then (mem_cb self) strings
            (opened (n ∷ parents) ∷ entry_events strings n parents lex es)
            (finished (full ∷ parents) ∷ []) scan w
          ∙ and_then-ok _ (perform (mem_cb self) (finished (full ∷ parents) ∷ [])) scan' w (
              mem-entries strings es n parents lex false (0, 0) self w
                (subst (λ m. EntriesAt m strings lex es) (sym e) l))
          ∙ ap (λ r. and_then r (perform (mem_cb self) [])) done,
      e,
      refl,
    )

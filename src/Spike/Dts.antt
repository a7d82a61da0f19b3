-- ===== src/Spike/Dts.antt =====
-- The flattened device tree of spike_interface/dts_parse.c. A pointer is an address. The pointer to
-- a node comes with its ancestors: it is the list of the node and of what `parent` leads to, the
-- empty list for NULL. A scan takes fuel, one round for each token.
pub mod Swap
pub mod Cells
pub mod Query
pub mod Regions
pub mod Size
pub mod Covering
pub mod Tree
pub mod Visit
pub mod Says
pub mod Device
pub mod Amount
use lq_os_lab.Base.{
  ℕ, zero, suc, ◌+◌, ◌-◌, ◌*◌, ◌/◌, ◌%◌, ◌^◌, bit_and, bit_or, Bool, true, false, not, ◌||◌, Option,
  none, some, List, [], ◌∷◌, ltb, leb, ◌==◌, if◌then◌else◌, text,
}
use lq_os_lab.Base.Memory.{Mem, u32_mod, u64_mod, load32, store32}
use lq_os_lab.Util.Strings.{literal, strcmp, strlen}
use lq_os_lab.World.{World, Run, ok, fault, diverges, Cmd, and_then, defined}
use lq_os_lab.Spike.Utils.{assert_fail}

unfoldable pub bswap : ℕ → ℕ
bswap x =
    let y = bit_or (bit_and x 0x00FF00FF * 2 ^ 8 % u32_mod) (bit_and x 0xFF00FF00 / 2 ^ 8) in
    bit_or (bit_and y 0x0000FFFF * 2 ^ 16 % u32_mod) (bit_and y 0xFFFF0000 / 2 ^ 16)

-- `bswap` of the word at an address.
abbrev pub swapped : Mem → ℕ → ℕ
swapped m a = bswap (load32 m a)

abbrev pub fdt_magic : ℕ
fdt_magic = 0xd00dfeed

abbrev pub fdt_version : ℕ
fdt_version = 17

abbrev pub fdt_begin_node : ℕ
fdt_begin_node = 1

abbrev pub fdt_end_node : ℕ
fdt_end_node = 2

abbrev pub fdt_prop : ℕ
fdt_prop = 3

abbrev pub fdt_nop : ℕ
fdt_nop = 4

-- `parent` is the rest of the list that a node heads. The cells are `int`s, as their 32 bits.
pub record FdtScanNode : Type 0 where
  pub name : ℕ
  pub address_cells : ℕ
  pub size_cells : ℕ

pub record FdtScanProp : Type 0 where
  pub node : List FdtScanNode
  pub name : ℕ
  pub value : ℕ
  pub len : ℕ

-- The callbacks on the state that `extra` points to; `close` answers an `int`.
pub record FdtCb (X : Type 0) : Type 0 where
  pub open_node : Option (List FdtScanNode → X → Cmd X)
  pub prop : FdtScanProp → X → Cmd X
  pub done : Option (List FdtScanNode → X → Cmd X)
  pub close : Option (List FdtScanNode → X → Cmd (ℕ × X))

-- What a call of the scan leaves: where it stopped, the node as its properties have set it, with
-- its ancestors, and the callbacks' state.
pub record Scanned (X : Type 0) : Type 0 where
  pub lex : ℕ
  pub nodes : List FdtScanNode
  pub extra : X

-- The default cell counts.
abbrev pub new_child : FdtScanNode
new_child = record { name = 0; address_cells = 2; size_cells = 1 }

abbrev pub set_address_cells : ℕ → List FdtScanNode → List FdtScanNode
set_address_cells v [] = []
set_address_cells v (n ∷ ns) = record n { address_cells = v } ∷ ns

abbrev pub set_size_cells : ℕ → List FdtScanNode → List FdtScanNode
set_size_cells v [] = []
set_size_cells v (n ∷ ns) = record n { size_cells = v } ∷ ns

-- `!strcmp(p, s)`
unfoldable pub text_is : ℕ → List ℕ → Cmd Bool
text_is p s w = and_then (defined (strcmp (λ i. w.mem (p + i)) (literal s)) w) λ d. ok (d == 0)

-- `node && !strcmp(p, s)`
unfoldable pub node_text_is : List FdtScanNode → ℕ → List ℕ → Cmd Bool
node_text_is [] p s w = ok false w
node_text_is (n ∷ ns) p s w = text_is p s w

-- `lex + 3 + (len + 3) / 4`, where `len` is an `int`.
unfoldable pub after_prop : ℕ → ℕ → Option ℕ
after_prop lex len =
    if ltb (len + 3) (2 ^ 31)
    then some (lex + 4 * (3 + (len + 3) / 4))
    else if ltb len (2 ^ 31)
    then none
    else some ((lex + 12 + u64_mod - 4 * ((u32_mod - len - 3) / 4)) % u64_mod)

-- `while (lex != lex_next) *lex++ = bswap(FDT_NOP);`
unfoldable pub fill_nops : ℕ → ℕ → ℕ → Cmd (Unit {0})
fill_nops zero lex lex_next w = diverges
fill_nops (suc f) lex lex_next w =
    let rest = fill_nops f (lex + 4) lex_next in
    if lex == lex_next then ok tt w else rest (record w { mem = store32 w.mem lex (bswap fdt_nop) })

module _ {X : Type 0} (cb : FdtCb X) (strings : ℕ) where
  -- The rest of the scan: the node, the next child, `last`, and where to go on.
  abbrev pub Scan : Type 0
  Scan = List FdtScanNode → FdtScanNode → Bool → ℕ → X → Cmd (Scanned X)

  -- `if (!last && node && cb->done) cb->done(node, cb->extra);`
  unfoldable pub call_done : Bool → List FdtScanNode → X → Cmd X
  call_done true nodes x w = ok x w
  call_done false [] x w = ok x w
  call_done false (n ∷ ns) x w = elim cb.done [ none ↦ ok x w | some d ↦ d (n ∷ ns) x w ]

  unfoldable pub call_open : List FdtScanNode → X → Cmd X
  call_open nodes x w = elim cb.open_node [ none ↦ ok x w | some o ↦ o nodes x w ]

  -- A node that `close` deletes is overwritten from its token up to where its scan stopped.
  unfoldable pub call_close : ℕ → ℕ → List FdtScanNode → X → Cmd X
  call_close lex lex_next nodes x w = elim cb.close [
    | none ↦ ok x w
    | some c ↦ and_then (c nodes x w) λ r v.
        if r.0 == u32_mod - 1
        then (and_then (fill_nops (2 ^ 62) lex lex_next v) λ _. ok r.1)
        else ok r.1 v
  ]

  unfoldable pub scan_prop : Scan → Scan
  scan_prop loop nodes child last lex x w =
      if last
      then assert_fail (text "spike_interface/dts_parse.c") 36 (text "!last") w
      else (let name = strings + swapped w.mem (lex + 8) in
          let len = swapped w.mem (lex + 4) in
          and_then (node_text_is nodes name (text "#address-cells") w) λ a u.
            let with_address =
              if a then set_address_cells (swapped u.mem (lex + 12)) nodes else nodes in
            and_then (node_text_is nodes name (text "#size-cells") u) λ b v.
              let with_size =
                if b
                then set_size_cells (swapped v.mem (lex + 12)) with_address
                else with_address in
              and_then (defined (after_prop lex len) v) λ next z.
                and_then
                  (cb.prop (record { node = with_size; name = name; value = lex + 12; len = len }) x
                    z)
                  (loop with_size child last next))

  -- The child's scan begins behind its name; its cells stay for the child that comes next.
  unfoldable pub scan_begin : Scan → Scan
  scan_begin loop nodes child last lex x w = and_then (call_done last nodes x w) λ x₁ w₁.
      let node = record child { name = lex + 4 } in
      and_then (call_open (node ∷ nodes) x₁ w₁) λ x₂ w₂.
        and_then (defined (strlen (λ i. w₂.mem (lex + 4 + i))) w₂) λ n w₃.
          and_then (loop (node ∷ nodes) new_child false (lex + 4 * (2 + n / 4)) x₂ w₃) λ r w₄.
            elim r.nodes [
              | [] ↦ fault
              | child' ∷ nodes' ↦
                  and_then (call_close lex r.lex (child' ∷ nodes') r.extra w₄)
                    (loop nodes' child' true r.lex)
            ]

  -- A NOP, a property or a child goes on; the end of the node or of the tree returns.
  unfoldable pub scan_loop : ℕ → Scan
  scan_loop zero nodes child last lex x w = diverges
  scan_loop (suc f) nodes child last lex x w =
      let loop : Scan = scan_loop f in
      let token = swapped w.mem lex in
      let stop : ℕ → Cmd (Scanned X) = λ at v.
        and_then (call_done last nodes x v)
          λ x'. ok (record { lex = at; nodes = nodes; extra = x' }) in
      (if token == fdt_nop
          then loop nodes child last (lex + 4) x
          else if token == fdt_prop
          then scan_prop loop nodes child last lex x
          else if token == fdt_begin_node
          then scan_begin loop nodes child last lex x
          else if token == fdt_end_node
          then stop (lex + 4)
          else stop lex)
        w

  unfoldable pub fdt_scan_helper : ℕ → ℕ → List FdtScanNode → X → Cmd (Scanned X)
  fdt_scan_helper f lex nodes x = scan_loop f nodes new_child false lex x

-- A tree that is not understood is passed over. What the callbacks made of `x` is left.
unfoldable pub fdt_scan : {X : Type 0} → ℕ → ℕ → FdtCb X → X → Cmd X
fdt_scan f fdt cb x w =
    if not (swapped w.mem fdt == fdt_magic) || ltb fdt_version (swapped w.mem (fdt + 24))
    then ok x w
    else (and_then
        (fdt_scan_helper cb (fdt + swapped w.mem (fdt + 12)) f (fdt + swapped w.mem (fdt + 8)) [] x
          w)
        λ r. ok r.extra)

-- The loop over `cells`, from `result` on: the next address and the value.
unfoldable pub get_cells : ℕ → Mem → ℕ → ℕ → ℕ × ℕ
get_cells zero m value result = (value, result)
get_cells (suc k) m value result =
    get_cells k m (value + 4) ((result * 2 ^ 32 + swapped m value) % u64_mod)

-- `int cells`: none where it is negative.
abbrev pub positive : ℕ → ℕ
positive cells = if ltb cells (2 ^ 31) then cells else 0

unfoldable pub fdt_get_address : FdtScanNode → Mem → ℕ → ℕ × ℕ
fdt_get_address node m value = get_cells (positive node.address_cells) m value 0

unfoldable pub fdt_get_size : FdtScanNode → Mem → ℕ → ℕ × ℕ
fdt_get_size node m value = get_cells (positive node.size_cells) m value 0

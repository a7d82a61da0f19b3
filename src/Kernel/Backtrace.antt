-- ===== src/Kernel/Backtrace.antt =====
-- `find_symbol_name` and `sys_user_backtrace` of kernel/syscall.c. Memory is read in Bare mode, at
-- any address and alignment: a load that the machine refuses, and that ends in a panic of M mode, is
-- not modelled. A round of the walk is split at its test on the frame pointer, at
-- the report of one return address and at the step to the next frame.
pub mod Symbols
pub mod Labels
pub mod Chain
pub mod Lines
pub mod Logs
pub mod Bounds
pub mod Blind
pub mod Reads
pub mod Frames
use lq_os_lab.Base.{
  ℕ, zero, suc, ◌+◌, ◌-◌, ◌*◌, ◌%◌, ◌^◌, bit_and, Bool, true, false, not, ◌&&◌, ◌||◌, Option, none,
  some, List, [], ◌∷◌, ltb, leb, ◌==◌, if◌then◌else◌, text,
}
use lq_os_lab.Base.Memory.{u64_mod, sub64, load64}
use lq_os_lab.Util.Print.{num, str}
use lq_os_lab.Util.Strings.{CharPtr, literal, strcmp, chars}
use lq_os_lab.Hart.{user_stack}
use lq_os_lab.World.{
  ElfSymbol, Process, World, null, user_app_ptr, ok, fault, diverges, Cmd, pure, ◌>>=◌, ◌>>◌,
  and_then, defined,
}
use lq_os_lab.Spike.Utils.{sprint}

abbrev pub stt_func : ℕ
stt_func = 2

-- `ELF64_ST_TYPE`
abbrev pub st_type : ℕ → ℕ
st_type i = bit_and i 0xf

-- `base_addr + (cursor->size ? cursor->size : 4)`
unfoldable pub limit_addr : ElfSymbol → ℕ
limit_addr c = (c.value + (if c.size == 0 then 4 else c.size)) % u64_mod

-- The loop over the symbols from index `i`, with `k` left; a result is an offset in `strtab`.
unfoldable pub find_symbol_loop : Process → ℕ → ℕ → ℕ → Option ℕ
unfolding limit_addr
find_symbol_loop p vaddr zero i = none
find_symbol_loop p vaddr (suc k) i =
    let rest = find_symbol_loop p vaddr k (i + 1) in
    let c = p.symtab i in
    if not (st_type c.info == stt_func)
    then rest
    else if c.value == 0
    then rest
    else if leb c.value vaddr && ltb vaddr (limit_addr c)
    then (if ltb c.name p.strtab_sz then some c.name else rest)
    else rest

unfoldable pub find_symbol_name : Process → ℕ → Option ℕ
unfolding find_symbol_loop
find_symbol_name p vaddr =
    if p.sym_count == 0 || p.strtab_sz == 0 then none else find_symbol_loop p vaddr p.sym_count 0

-- `p->strtab + off`
abbrev pub name_at : Process → ℕ → CharPtr
name_at p off i = p.strtab (off + i)

-- `strcmp(name, s) == 0`
unfoldable pub name_is : CharPtr → List ℕ → Cmd Bool
name_is name s = (λ w. defined (strcmp name (literal s)) w) >>= λ d. pure (d == 0)

-- `sprint("%s\n", sym_name)`
unfoldable pub print_name : CharPtr → Cmd (Unit {0})
print_name name = (λ w. defined (chars name) w) >>= λ s. sprint (text "%s\n") (str s ∷ [])

-- What is done with one named frame: `none` is the `break` at `main`, else `valid_print`.
unfoldable pub report_name : CharPtr → Cmd (Option Bool)
unfolding name_is print_name
report_name name = do
  main ← name_is name (text "main")
  if main then pure none else do
    own ← name_is name (text "print_backtrace")
    if own then pure (some false) else do
      call ← name_is name (text "do_user_call")
      if call then pure (some false) else print_name name >> pure (some true)

unfoldable pub report : ℕ → Cmd (Option Bool)
unfolding report_name
report ret_addr w = elim (find_symbol_name w.user_app ret_addr) [
  | none ↦ (sprint (text "0x%lx\n") (num ret_addr ∷ []) >> pure (some true)) w
  | some off ↦ report_name (name_at w.user_app off) w
]

-- `fp` is no frame of the user stack above `sp`, or the word at `fp - 8 * k` lies not above `sp`.
unfoldable pub outside : ℕ → ℕ → ℕ → Bool
outside k sp fp = leb fp sp || leb user_stack fp || leb (sub64 fp (8 * k)) sp

unfoldable pub bad_link : ℕ → ℕ → Bool
bad_link old fp = old == 0 || leb old fp || leb user_stack old

-- The rest of a round after the report: `loop` is entered with the next frame pointer and count.
unfoldable pub after_report : (ℕ → ℕ → Cmd ℕ) → ℕ → ℕ → ℕ → Option Bool → Cmd ℕ
after_report loop sp fp count none w = ok count w
after_report loop sp fp count (some valid_print) w =
    let count' = if valid_print then count + 1 else count in
    let old_fp = load64 w.mem (sub64 fp 16) in
    if leb (sub64 fp 16) sp || bad_link old_fp fp then ok count' w else loop old_fp count' w

unfoldable pub visit : (ℕ → ℕ → Cmd ℕ) → ℕ → ℕ → ℕ → Cmd ℕ
visit loop sp fp count w =
    let ret_addr = load64 w.mem (sub64 fp 8) in
    if ret_addr == 0
    then ok count w
    else and_then (report ret_addr w) (after_report loop sp fp count)

-- `while (current_fp && count < max_depth)`, where the frame pointer only grows below the top of
-- the user stack.
unfoldable pub backtrace_loop : ℕ → ℕ → ℕ → ℕ → ℕ → Cmd ℕ
backtrace_loop zero max_depth sp fp count w = diverges
backtrace_loop (suc f) max_depth sp fp count w =
    if not (fp == 0) && ltb count max_depth && not (outside 1 sp fp)
    then visit (backtrace_loop f max_depth sp) sp fp count w
    else ok count w

abbrev pub backtrace_fuel : ℕ
backtrace_fuel = user_stack + 1

-- The walk starts at the frame that the saved word below `s0` points to.
unfoldable pub walk_from : ℕ → ℕ → ℕ → Cmd ℕ
walk_from max_depth sp fp w =
    if fp == 0 || outside 1 sp fp
    then ok 0 w
    else if bad_link (load64 w.mem (sub64 fp 8)) fp
    then ok 0 w
    else backtrace_loop backtrace_fuel max_depth sp (load64 w.mem (sub64 fp 8)) 0 w

unfoldable pub sys_user_backtrace : ℕ → Cmd ℕ
sys_user_backtrace max_depth w = if max_depth == 0 then ok 0 w else elim w.current [
  | null ↦ fault
  | user_app_ptr ↦ walk_from max_depth w.user_app.trapframe.regs.sp w.user_app.trapframe.regs.s0 w
]

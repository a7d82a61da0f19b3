-- ===== src/Tests/Stacks.antt =====
-- A user stack with two frames, and its backtrace.
use lq_os_lab.Base.{
  ◌≡◌, refl, false, arith, inl, inr, none, some, List, [], ◌∷◌, length, text, if◌then◌else◌, ◌==◌,
}
use lq_os_lab.Base.Memory.{Mem, load64, store64}
use lq_os_lab.Util.Strings.Lexical.{StandsAt, same_text}
use lq_os_lab.Hart.{zero_regs}
use lq_os_lab.World.{World, Process, ok}
use lq_os_lab.Kernel.Backtrace.Reads.{OnStack, sys_user_backtrace-OnStack}
use lq_os_lab.Kernel.Backtrace.{
  find_symbol_name, find_symbol_loop, limit_addr, name_at, sys_user_backtrace,
}
use lq_os_lab.Kernel.Backtrace.Labels.{Label, stop, shown, name_label, address_line}
use lq_os_lab.Kernel.Backtrace.Chain.{Chain, lines, log_all}
use lq_os_lab.Kernel.Backtrace.Lines.{sys_user_backtrace-lines}
use lq_os_lab.Tests.Samples.{one_function, user_world}

-- The saved word of the innermost frame, a frame with a return address of no known function, and
-- one that returns to `main`.
abbrev pub stack : Mem
stack =
    store64
      (store64 (store64 (store64 (λ a. 0) 0x810f00f8 0x810f0200) 0x810f01f8 0x82000000) 0x810f01f0
        0x810f0300)
      0x810f02f8 0x81000010

abbrev pub calling : Process
calling = record one_function {
  trapframe = record (one_function.trapframe) {
    regs = record (zero_regs) { sp = 0x810f0000; s0 = 0x810f0100 };
  };
}

abbrev pub stack_world : World
stack_world = record user_world { mem = stack; user_app = calling }

abbrev pub labels : List Label
labels = shown (address_line 0x82000000) ∷ stop ∷ []

unknown_address : find_symbol_name calling 0x82000000 ≡ none
unfolding find_symbol_name find_symbol_loop limit_addr
unknown_address = refl

address_in_main : find_symbol_name calling 0x81000010 ≡ some 1
unfolding find_symbol_name find_symbol_loop limit_addr
address_in_main = refl

main_stands : StandsAt (name_at calling 1) 0 (text "main")
main_stands = (
  refl,
  (λ e. absurd (omega arith)),
  omega arith,
  (
    refl,
    (λ e. absurd (omega arith)),
    omega arith,
    (
      refl,
      (λ e. absurd (omega arith)),
      omega arith,
      (refl, (λ e. absurd (omega arith)), omega arith, refl),
    ),
  ),
)

main_stops : stop ≡ name_label (text "main")
unfolding name_label same_text
main_stops = refl

pub two_frames : Chain stack calling 0x810f0000 0x810f0200 labels
unfolding load64 store64
two_frames = (
  omega arith,
  omega arith,
  (λ e. absurd (omega arith)),
  inl (unknown_address, refl),
  inr (
      inr (
        omega arith,
        (
          omega arith,
          omega arith,
          (λ e. absurd (omega arith)),
          inr (1, (text "main", address_in_main, main_stands, omega arith, main_stops)),
          inl refl,
        ),
      )),
)

sys_user_backtrace-lines_example :
    sys_user_backtrace 8 stack_world
    ≡ ok (length (lines 8 labels)) (log_all (lines 8 labels) stack_world)
unfolding load64 store64
sys_user_backtrace-lines_example =
    sys_user_backtrace-lines 8 labels stack_world refl (omega arith) (omega arith) (omega arith)
      two_frames

-- The same stack in a memory that differs elsewhere.
abbrev other_memory : Mem
other_memory a = if a == 0 then 1 else stack a

sys_user_backtrace-OnStack_example : OnStack 5 other_memory stack_world
sys_user_backtrace-OnStack_example =
    sys_user_backtrace-OnStack 5 other_memory stack_world (omega arith)
      (λ a lo hi. let e : (a == 0) ≡ false = ground arith in rw e refl)

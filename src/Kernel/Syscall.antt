-- ===== src/Kernel/Syscall.antt =====
-- The system calls of kernel/syscall.c and their dispatch. Arguments are 64-bit register values.
pub mod Quiet
pub mod Results
use lq_os_lab.Base.{
  ℕ, ◌+◌, ◌-◌, ◌%◌, ◌^◌, Bool, true, false, List, [], ◌∷◌, ◌==◌, if◌then◌else◌, text,
}
use lq_os_lab.Util.Print.{num}
use lq_os_lab.Util.Strings.{chars}
use lq_os_lab.World.{World, ok, Cmd, pure, ◌>>=◌, ◌>>◌, and_then, defined}
use lq_os_lab.Spike.Utils.{sprint, shutdown, panic}
use lq_os_lab.Kernel.Backtrace.{sys_user_backtrace}

abbrev pub sys_user_base : ℕ
sys_user_base = 64

-- The user's buffer is the format; `n` is not read.
unfoldable pub sys_user_print : ℕ → ℕ → Cmd ℕ
sys_user_print buf n w =
    and_then (defined (chars (λ i. w.mem (buf + i))) w) λ s. sprint s [] >> pure 0

unfoldable pub sys_user_exit : ℕ → Cmd ℕ
sys_user_exit code = sprint (text "User exit with code:%d.\n") (num code ∷ []) >> shutdown code

unfoldable pub do_syscall : ℕ → ℕ → ℕ → ℕ → ℕ → ℕ → ℕ → ℕ → Cmd ℕ
do_syscall a0 a1 a2 a3 a4 a5 a6 a7 =
    if a0 == sys_user_base + 0
    then sys_user_print a1 a2
    else if a0 == sys_user_base + 1
    then sys_user_exit a1
    else if a0 == sys_user_base + 2
    then sys_user_backtrace a1
    else panic (text "Unknown syscall %ld \n") (num a0 ∷ [])

-- ===== src/Tests/Traps.antt =====
-- Traps of the sample process.
use lq_os_lab.Base.{ℕ, ◌≡◌, refl, arith, []}
use lq_os_lab.Base.Bits.{bit}
use lq_os_lab.Hart.{
  cause_user_ecall, cause_mtimer_s_trap, cause_mtimer, cause_illegal_instruction, user_trap_frame,
}
use lq_os_lab.World.{World, ok}
use lq_os_lab.Kernel.Process.Resume.{IsReady, resumed, resumed-IsReady}
use lq_os_lab.Kernel.Syscall.{do_syscall}
use lq_os_lab.Kernel.Backtrace.{sys_user_backtrace}
use lq_os_lab.Kernel.Syscall.Quiet.{Stops}
use lq_os_lab.Kernel.Trap.Vector.{IsTrapped}
use lq_os_lab.Kernel.Trap.Timer.{Resumes, timer-Resumes}
use lq_os_lab.Kernel.Trap.Ecall.{called, user_call, ecall-Resumes}
use lq_os_lab.Kernel.Machine.{mtrapvec}
use lq_os_lab.Kernel.Machine.Tick.{Ticks, mtimer-Ticks, mtrap-Stops}
use lq_os_lab.Tests.Samples.{image, trapped_for, m_trapped_for, user_world}

sample-IsTrapped : (cause : ℕ) → IsTrapped image (trapped_for cause)
sample-IsTrapped cause = record { frame = refl; handler = refl; running = refl; from_user = refl }

-- A backtrace of depth 0.
sample_call :
    user_call image (trapped_for cause_user_ecall)
    ≡ ok 0 (called image (trapped_for cause_user_ecall))
unfolding do_syscall sys_user_backtrace
sample_call = refl

ecall-Resumes_example :
    (v : World) × Resumes image
      (trapped_for cause_user_ecall)
      (record ((trapped_for cause_user_ecall).regs) { a0 = 0; t6 = user_trap_frame })
      0x81000014
      v
    × (v.host ≡ [])
ecall-Resumes_example =
    ecall-Resumes image (trapped_for cause_user_ecall) 0
      (called image (trapped_for cause_user_ecall)) (sample-IsTrapped cause_user_ecall) refl
      sample_call

timer-Resumes_example :
    (v : World) × Resumes image
      (trapped_for cause_mtimer_s_trap)
      (record ((trapped_for cause_mtimer_s_trap).regs) { t6 = user_trap_frame })
      0x81000010
      v
    × (v.g_ticks ≡ 42)
    × (bit 1 v.csrs.sip ≡ 0)
timer-Resumes_example =
    timer-Resumes image (trapped_for cause_mtimer_s_trap) (sample-IsTrapped cause_mtimer_s_trap)
      refl

resumed-IsReady_example : IsReady image (resumed image user_world)
resumed-IsReady_example = resumed-IsReady image user_world

mtimer-Ticks_example : (v : World) × Ticks image (m_trapped_for cause_mtimer) v
mtimer-Ticks_example = mtimer-Ticks image (m_trapped_for cause_mtimer) refl refl

mtrap-Stops_example : Stops (mtrapvec image (m_trapped_for cause_illegal_instruction))
mtrap-Stops_example =
    mtrap-Stops image (m_trapped_for cause_illegal_instruction) (λ e. absurd (omega arith))

-- ===== src/Kernel/Trap/Timer.antt =====
-- A timer interrupt as the user process sees it: through the vector, the handler and the return.
use lq_os_lab.Base.{ℕ, ◌+◌, ◌-◌, ◌%◌, ◌^◌, ◌≡◌, refl, ◌∙◌, List, arith, ap}
use lq_os_lab.Base.Memory.{u64_mod}
use lq_os_lab.Base.Bits.{bit, bit-bit_and}
use lq_os_lab.Hart.{Regs, clear_bits, sip_ssip, cause_mtimer_s_trap, user_trap_frame}
use lq_os_lab.World.{World, ok}
use lq_os_lab.Spike.Utils.Console.{logged, sprint-ok}
use lq_os_lab.Spike.Utils.Messages.{render-ticks}
use lq_os_lab.Kernel.Process.{Image}
use lq_os_lab.Kernel.Process.Resume.{
  IsReady, resumed, resumed-pc, resumed-regs, resumed-keeps, resumed-process, resumed-console,
  switch_to-resumed, resumed-IsReady,
}
use lq_os_lab.Kernel.Trap.{handle_mtimer_trap, dispatch, saved_regs, smode_trap_vector}
use lq_os_lab.Kernel.Trap.Vector.{IsTrapped, entered, vector-dispatch}

-- The outcome of a trap: the process goes on at `pc` with the registers `regs`.
pub record Resumes (img : Image) (w : World) (regs : Regs) (pc : ℕ) (v : World) : Type 0 where
  pub returns : smode_trap_vector img w ≡ ok tt v
  pub same_regs : v.regs ≡ regs
  pub same_pc : v.pc ≡ pc
  pub same_memory : v.mem ≡ w.mem
  pub same_process : v.user_app ≡ record (w.user_app) { trapframe = v.user_app.trapframe }
  pub same_console : v.stderr_kfd ≡ w.stderr_kfd
  pub ready : IsReady img v

sip_mask : bit 1 (2 ^ 64 - 1 - sip_ssip) ≡ 0
unfolding bit
sip_mask = refl

module _ (img : Image) (w : World) where
  abbrev ticked : List ℕ → World
  ticked bytes =
      let v = logged bytes (entered img w) in
      record v {
        g_ticks = (w.g_ticks + 1) % u64_mod;
        csrs = record (v.csrs) { sip = clear_bits w.csrs.sip sip_ssip };
      }

  dispatch-timer : (v : World) → dispatch cause_mtimer_s_trap v ≡ handle_mtimer_trap v
  unfolding dispatch
  dispatch-timer v = refl

  handle-ticked : (bytes : List ℕ) × (handle_mtimer_trap (entered img w) ≡ ok tt (ticked bytes))
  unfolding handle_mtimer_trap
  handle-ticked =
      let (bytes, e) = sprint-ok _ _ _ (entered img w) (render-ticks w.g_ticks) in (bytes, rw e)

  dispatch-ticked :
      w.csrs.scause ≡ cause_mtimer_s_trap
      → (bytes : List ℕ) × (dispatch w.csrs.scause (entered img w) ≡ ok tt (ticked bytes))
  dispatch-ticked c =
      let (bytes, e) = handle-ticked in
      (bytes, ap (λ k. dispatch k (entered img w)) c ∙ dispatch-timer (entered img w) ∙ e)

  -- A timer interrupt in user mode counts one tick, clears the pending bit in `sip`, and
  -- the process goes on where it was with its memory and its registers, all but `t6`: the vector overwrites `t6` with the address of the trap frame before it saves the registers.
  pub timer-Resumes :
      IsTrapped img w
      → w.csrs.scause ≡ cause_mtimer_s_trap
      → (v : World) × Resumes img w (record (w.regs) { t6 = user_trap_frame }) w.csrs.sepc v
        × (v.g_ticks ≡ (w.g_ticks + 1) % u64_mod)
        × (bit 1 v.csrs.sip ≡ 0)
  timer-Resumes t c =
      let (bytes, e) = dispatch-ticked c in
      let v = ticked bytes in
      (
        resumed img v,
        record {
          returns = rw (vector-dispatch img w t, e) (switch_to-resumed img v t.running);
          same_regs = resumed-regs img v ∙ saved;
          same_pc = resumed-pc img v;
          same_memory = (resumed-keeps img v).0;
          same_process = resumed-process img v;
          same_console = resumed-console img v;
          ready = resumed-IsReady img v;
        },
        (resumed-keeps img v).1,
        ap (bit 1) ((resumed-keeps img v).2) ∙ cleared,
      )
    where
      saved : saved_regs user_trap_frame w.regs ≡ record (w.regs) { t6 = user_trap_frame }
      saved = unfold saved_regs in refl

      cleared : bit 1 (clear_bits w.csrs.sip sip_ssip) ≡ 0
      cleared = omega (arith, bit-bit_and 1 w.csrs.sip (2 ^ 64 - 1 - sip_ssip), sip_mask)

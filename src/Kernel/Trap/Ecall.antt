-- ===== src/Kernel/Trap/Ecall.antt =====
-- A system call as the user process sees it: through the vector, the dispatch and the return.
use lq_os_lab.Base.{ℕ, ◌+◌, ◌%◌, ◌≡◌, refl, sym, ◌∙◌, ap}
use lq_os_lab.Base.Memory.{u64_mod}
use lq_os_lab.Hart.{cause_user_ecall, user_trap_frame}
use lq_os_lab.World.{World, Run, ok, halted, and_then}
use lq_os_lab.Kernel.Process.{Image, on_trapframe, switch_to}
use lq_os_lab.Kernel.Process.Resume.{
  resumed, resumed-pc, resumed-regs, resumed-keeps, resumed-process, resumed-console,
  switch_to-resumed, resumed-IsReady,
}
use lq_os_lab.Kernel.Trap.{handle_syscall, dispatch, saved_regs, smode_trap_vector}
use lq_os_lab.Kernel.Trap.Vector.{IsTrapped, entered, vector-dispatch}
use lq_os_lab.Kernel.Trap.Timer.{Resumes}
use lq_os_lab.Kernel.Syscall.{do_syscall}
use lq_os_lab.Kernel.Syscall.Quiet.{Quiet, QuietRun, do_syscall-Quiet}

module _ (img : Image) (w : World) where
  -- The state in which the system call runs: `epc` already points behind the `ecall`.
  abbrev pub called : World
  called = on_trapframe (λ tf. record tf { epc = (tf.epc + 4) % u64_mod }) (entered img w)

  -- The system call of the user's registers.
  abbrev pub user_call : Run ℕ
  user_call =
      do_syscall w.regs.a0 w.regs.a1 w.regs.a2 w.regs.a3 w.regs.a4 w.regs.a5 w.regs.a6 w.regs.a7
        called

  abbrev returned : ℕ → World → World
  returned ret u = on_trapframe (λ tf. record tf { regs = record (tf.regs) { a0 = ret } }) u

  dispatch-call : (v : World) → dispatch cause_user_ecall v ≡ handle_syscall v
  unfolding dispatch
  dispatch-call v = refl

  handle-call :
      handle_syscall (entered img w) ≡ and_then user_call (λ ret u. ok tt (returned ret u))
  unfolding handle_syscall saved_regs
  handle-call = refl

  resumes :
      (ret : ℕ) (u : World)
      → IsTrapped img w
      → w.csrs.scause ≡ cause_user_ecall
      → user_call ≡ ok ret u
      → Quiet called u
      → (v : World) × Resumes img w
          (record (w.regs) { a0 = ret; t6 = user_trap_frame })
          ((w.csrs.sepc + 4) % u64_mod)
          v
        × (v.host ≡ u.host)
  resumes ret u t c e q =
      let x = returned ret (record called { host = q.calls }) in
      let same : u ≡ record called { host = q.calls } = q.only_host in
      let handled : dispatch w.csrs.scause (entered img w) ≡ ok tt x =
        ap (λ k. dispatch k (entered img w)) c
        ∙ dispatch-call (entered img w)
        ∙ handle-call
        ∙ ap (λ r. and_then r (λ ret u. ok tt (returned ret u))) e
        ∙ ap (λ u. ok tt (returned ret u)) same in
      (
        resumed img x,
        record {
          returns = rw (vector-dispatch img w t, handled) (switch_to-resumed img x t.running);
          same_regs = resumed-regs img x ∙ saved;
          same_pc = resumed-pc img x;
          same_memory = (resumed-keeps img x).0;
          same_process = resumed-process img x;
          same_console = resumed-console img x;
          ready = resumed-IsReady img x;
        },
        (resumed-keeps img x).3 ∙ sym (ap (λ (y : World). y.host) same),
      )
    where
      saved :
          record (saved_regs user_trap_frame w.regs) { a0 = ret }
          ≡ record (w.regs) { a0 = ret; t6 = user_trap_frame }
      saved = unfold saved_regs in refl

  -- When the system call that the user's registers ask for returns, the process goes on behind
  -- its `ecall` with the result in `a0`, its memory unchanged, and its registers as they were,
  -- all but `t6`, which the vector overwrites with the address of the trap frame; the next trap
  -- finds the kernel ready, and the host has seen what the system call sent.
  pub ecall-Resumes :
      (ret : ℕ) (u : World)
      → IsTrapped img w
      → w.csrs.scause ≡ cause_user_ecall
      → user_call ≡ ok ret u
      → (v : World) × Resumes img w
          (record (w.regs) { a0 = ret; t6 = user_trap_frame })
          ((w.csrs.sepc + 4) % u64_mod)
          v
        × (v.host ≡ u.host)
  ecall-Resumes ret u t c e = resumes ret u t c e quiet
    where
      all : QuietRun called user_call
      all = do_syscall-Quiet _ _ _ _ _ _ _ _ called

      quiet : Quiet called u
      quiet = rw e at all

  -- When the system call stops the machine, so does the trap.
  pub ecall-halts :
      (u : World)
      → IsTrapped img w
      → w.csrs.scause ≡ cause_user_ecall
      → user_call ≡ halted u
      → smode_trap_vector img w ≡ halted u
  ecall-halts u t c e =
      vector-dispatch img w t
      ∙ ap (λ r. and_then r (λ _ v. switch_to img v.current v))
          (ap (λ k. dispatch k (entered img w)) c
            ∙ dispatch-call (entered img w)
            ∙ handle-call
            ∙ ap (λ r. and_then r (λ ret v. ok tt (returned ret v))) e)

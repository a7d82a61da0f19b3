-- ===== src/Kernel/Trap/Vector.antt =====
-- From `smode_trap_vector` to the branch on `scause`.
use lq_os_lab.Base.{◌≡◌, bit_and, ==_self}
use lq_os_lab.Hart.{sstatus_spp, user_trap_frame}
use lq_os_lab.World.{user_app_ptr, World, and_then}
use lq_os_lab.Kernel.Process.{Image, on_trapframe, switch_to}
use lq_os_lab.Kernel.Trap.{dispatch, smode_trap_handler, saved_regs, smode_trap_vector}

-- The state at the vector: a trap from user mode with the kernel's entry in place.
pub record IsTrapped (img : Image) (w : World) : Type 0 where
  pub frame : w.csrs.sscratch ≡ user_trap_frame
  pub handler : w.user_app.trapframe.kernel_trap ≡ img.smode_trap_handler
  pub running : w.current ≡ user_app_ptr
  pub from_user : bit_and w.csrs.sstatus sstatus_spp ≡ 0

module _ (img : Image) (w : World) where
  -- The state in which the branch on `scause` is taken.
  abbrev pub entered : World
  entered =
      on_trapframe (λ tf. record tf { regs = saved_regs user_trap_frame w.regs; epc = w.csrs.sepc })
        (record w {
          pc = w.user_app.trapframe.kernel_trap;
          regs = record (w.regs) {
            a0 = user_trap_frame;
            t6 = user_trap_frame;
            sp = w.user_app.trapframe.kernel_sp;
            t0 = w.user_app.trapframe.kernel_trap;
          };
          csrs = record (w.csrs) { sscratch = w.regs.a0 };
        })

  pub vector-dispatch :
      IsTrapped img w
      → smode_trap_vector img w
        ≡ and_then (dispatch w.csrs.scause entered) (λ _ v. switch_to img v.current v)
  unfolding smode_trap_vector smode_trap_handler
  vector-dispatch t = simp (t.frame, t.handler, t.from_user, t.running, ==_self)

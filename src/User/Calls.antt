-- ===== src/User/Calls.antt =====
-- What the calls of the user library do, through the whole kernel.
use lq_os_lab.Base.{
  ℕ, ◌+◌, ◌-◌, ◌%◌, ◌^◌, ◌≡◌, refl, ap, ◌∙◌, arith, Bool, true, false, ◌==◌, if◌then◌else◌,
}
use lq_os_lab.Base.Memory.{u32_mod, u64_mod}
use lq_os_lab.Base.Bits.{bit}
use lq_os_lab.Hart.{Regs, sstatus_spp, sstatus_spie}
use lq_os_lab.World.{World, ok, halted, and_then}
use lq_os_lab.Kernel.Syscall.{do_syscall}
use lq_os_lab.Kernel.Process.{Image}
use lq_os_lab.Kernel.Process.Resume.{IsReady, spp-zero, bit-cleared, bit-or_zero}
use lq_os_lab.Kernel.Trap.{smode_trap_vector}
use lq_os_lab.Kernel.Trap.Vector.{IsTrapped}
use lq_os_lab.Kernel.Trap.Ecall.{called, ecall-Resumes, ecall-halts}
use lq_os_lab.User.{trap_ecall, ecall, do_user_call}

mask : bit 8 (2 ^ 64 - 1 - (sstatus_spp + sstatus_spie + 2)) ≡ 0
unfolding bit
mask = refl

spie_bit : (b : Bool) → bit 8 (if b then 0 else sstatus_spie) ≡ 0
unfolding bit
spie_bit true = refl
spie_bit false = refl

module _ (img : Image) (w : World) where
  -- A call from a process that the kernel has prepared is a trap from user mode.
  ecall-IsTrapped : IsReady img w → IsTrapped img (trap_ecall w)
  unfolding trap_ecall
  ecall-IsTrapped r = record {
    frame = r.frame;
    handler = r.handler;
    running = r.running;
    from_user = spp-zero _ (
        bit-or_zero 8 _ _ (bit-cleared 8 w.csrs.sstatus (sstatus_spp + sstatus_spie + 2) mask)
          (spie_bit _));
  }

  ecall-vector : IsReady img w → ecall img w ≡ smode_trap_vector img (trap_ecall w)
  unfolding ecall trap_ecall
  ecall-vector r =
      let e : (w.csrs.stvec == img.smode_trap_vector) ≡ true = ground (arith, r.vector) in rw e refl

-- The process with the arguments of a call in its registers.
abbrev pub with_args : ℕ → ℕ → ℕ → ℕ → ℕ → ℕ → ℕ → ℕ → World → World
with_args sysnum a1 a2 a3 a4 a5 a6 a7 w = record w {
  regs = record (w.regs) {
    a0 = sysnum;
    a1 = a1;
    a2 = a2;
    a3 = a3;
    a4 = a4;
    a5 = a5;
    a6 = a6;
    a7 = a7;
  };
}

-- The state of the kernel in which the system call runs.
abbrev pub in_kernel : Image → World → World
in_kernel img w = called img (trap_ecall w)

-- The process goes on behind its `ecall`, its memory as it was, and can make the next call.
pub record Returned (img : Image) (w v : World) : Type 0 where
  pub behind : v.pc ≡ (w.pc + 4) % u64_mod
  pub same_memory : v.mem ≡ w.mem
  pub same_frames : (v.regs.sp ≡ w.regs.sp) × (v.regs.s0 ≡ w.regs.s0)
  pub same_process : v.user_app ≡ record (w.user_app) { trapframe = v.user_app.trapframe }
  pub same_console : v.stderr_kfd ≡ w.stderr_kfd
  pub ready : IsReady img v

module _ (img : Image) (sysnum a1 a2 a3 a4 a5 a6 a7 : ℕ) (w : World) where
  abbrev asking : World
  asking = with_args sysnum a1 a2 a3 a4 a5 a6 a7 w

  asking-IsReady : IsReady img w → IsReady img asking
  asking-IsReady r = record {
    frame = r.frame;
    vector = r.vector;
    handler = r.handler;
    stack = r.stack;
    running = r.running;
    in_user_mode = r.in_user_mode;
    spp_clear = r.spp_clear;
  }

  -- When the system call of the arguments returns, the user's call returns the low 32 bits of its
  -- result, and the host has seen what the system call sent.
  pub do_user_call-Returned :
      (ret : ℕ) (u : World)
      → IsReady img w
      → do_syscall sysnum a1 a2 a3 a4 a5 a6 a7 (in_kernel img asking) ≡ ok ret u
      → (v : World) × (do_user_call img sysnum a1 a2 a3 a4 a5 a6 a7 w ≡ ok (ret % u32_mod) v)
        × Returned img w v
        × (v.host ≡ u.host)
  unfolding do_user_call trap_ecall
  do_user_call-Returned ret u r e =
      let r' = asking-IsReady r in
      let (v, resumes, host) =
        ecall-Resumes img (trap_ecall asking) ret u (ecall-IsTrapped img asking r') refl e in
      let a0 : v.regs.a0 ≡ ret = ap (λ (x : Regs). x.a0) resumes.same_regs in
      (
        v,
        ap (λ x. and_then x (λ _ y. ok (y.regs.a0 % u32_mod) y))
              (ecall-vector img asking r' ∙ resumes.returns)
            ∙ ap (λ n. ok (n % u32_mod) v) a0,
        record {
          behind = resumes.same_pc;
          same_memory = resumes.same_memory;
          same_frames = (
            ap (λ (x : Regs). x.sp) resumes.same_regs,
            ap (λ (x : Regs). x.s0) resumes.same_regs,
          );
          same_process = resumes.same_process;
          same_console = resumes.same_console;
          ready = resumes.ready;
        },
        host,
      )

  -- When the system call stops the machine, the user's call does not return.
  pub do_user_call-halts :
      (u : World)
      → IsReady img w
      → do_syscall sysnum a1 a2 a3 a4 a5 a6 a7 (in_kernel img asking) ≡ halted u
      → do_user_call img sysnum a1 a2 a3 a4 a5 a6 a7 w ≡ halted u
  unfolding do_user_call trap_ecall
  do_user_call-halts u r e =
      let r' = asking-IsReady r in
      ap (λ x. and_then x (λ _ y. ok (y.regs.a0 % u32_mod) y))
        (ecall-vector img asking r'
          ∙ ecall-halts img (trap_ecall asking) u (ecall-IsTrapped img asking r') refl e)

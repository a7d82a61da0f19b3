-- ===== src/Kernel/Process.antt =====
-- `switch_to` of kernel/process.c with `return_to_user` of kernel/strap_vector.S, and
-- `load_user_program` of kernel/kernel.c up to the loader. Link-time addresses are an `Image`.
pub mod Resume
use lq_os_lab.Base.{
  ℕ, ◌+◌, ◌-◌, ◌*◌, ◌^◌, bit_and, bit_or, Bool, true, false, List, [], ◌∷◌, ◌==◌, if◌then◌else◌,
  text,
}
use lq_os_lab.Hart.{
  Regs, zero_regs, Csrs, clear_bits, sstatus_spp, sstatus_spie, user_stack, user_kstack,
  user_trap_frame,
}
use lq_os_lab.World.{
  Trapframe, Process, ProcessPtr, null, user_app_ptr, World, ok, Cmd, ◌>>=◌, ◌>>◌, and_then, modify,
}
use lq_os_lab.Spike.Utils.{assert_fail}

pub record Image : Type 0 where
  pub smode_trap_vector : ℕ
  pub smode_trap_handler : ℕ
  pub s_start : ℕ
  pub mtrapvec : ℕ
  pub g_itrframe : ℕ

abbrev pub on_trapframe : (Trapframe → Trapframe) → World → World
on_trapframe f w = record w {
  user_app = record (w.user_app) { trapframe = f w.user_app.trapframe };
}

-- `sret`: back to the mode in SPP, at `sepc`; SIE takes SPIE, SPIE is set and SPP cleared.
unfoldable pub sret : World → World
sret w = record w {
  pc = w.csrs.sepc;
  user_mode = bit_and w.csrs.sstatus sstatus_spp == 0;
  csrs = record (w.csrs) {
    sstatus =
        bit_or (bit_or (clear_bits w.csrs.sstatus (sstatus_spp + 2)) sstatus_spie)
          (if bit_and w.csrs.sstatus sstatus_spie == 0 then 0 else 2);
  };
}

-- `csrw sscratch, a0` and `restore_all_registers`, from the one process's trap frame.
unfoldable pub return_to_user : World → World
return_to_user w = sret (record w {
  regs = w.user_app.trapframe.regs;
  csrs = record (w.csrs) { sscratch = user_trap_frame };
})

module _ (img : Image) where
  -- The writes of `switch_to` before the return.
  unfoldable pub prepare : World → World
  prepare w =
      on_trapframe
        (λ tf. record tf { kernel_sp = w.user_app.kstack; kernel_trap = img.smode_trap_handler })
        (record w {
          current = user_app_ptr;
          csrs = record (w.csrs) {
            stvec = img.smode_trap_vector;
            sstatus = bit_or (clear_bits w.csrs.sstatus sstatus_spp) sstatus_spie;
            sepc = w.user_app.trapframe.epc;
          };
        })

  unfoldable pub switch_to : ProcessPtr → Cmd (Unit {0})
  switch_to null w = assert_fail (text "kernel/process.c") 29 (text "proc") w
  switch_to user_app_ptr w = ok tt (return_to_user (prepare w))

-- ===== src/User.antt =====
-- The user library, user/user_lib.c, on the side of the process. A call is made with the program
-- counter at the `ecall` of `do_user_call`; the compiler's prologues and epilogues are not modelled.
pub mod Calls
pub mod Library
pub mod App
use lq_os_lab.Base.{
  ℕ, ◌+◌, ◌-◌, ◌%◌, ◌^◌, bit_and, bit_or, false, true, none, some, List, ◌==◌, if◌then◌else◌,
}
use lq_os_lab.Base.Memory.{u32_mod}
use lq_os_lab.Util.Print.{Arg, vsnprintf}
use lq_os_lab.Hart.{clear_bits, sstatus_spp, sstatus_spie, cause_user_ecall}
use lq_os_lab.World.{World, ok, fault, Cmd, and_then}
use lq_os_lab.Spike.Utils.{written}
use lq_os_lab.Kernel.Elf.{store_bytes}
use lq_os_lab.Kernel.Syscall.{sys_user_base}
use lq_os_lab.Kernel.Process.{Image}
use lq_os_lab.Kernel.Trap.{smode_trap_vector}

-- What the processor does at an `ecall` in user mode that is delegated to S mode: SPP is cleared,
-- SPIE takes SIE, and SIE is cleared.
unfoldable pub trap_ecall : World → World
trap_ecall w = record w {
  pc = w.csrs.stvec;
  user_mode = false;
  csrs = record (w.csrs) {
    sepc = w.pc;
    scause = cause_user_ecall;
    stval = 0;
    sstatus =
        bit_or (clear_bits w.csrs.sstatus (sstatus_spp + sstatus_spie + 2))
          (if bit_and w.csrs.sstatus 2 == 0 then 0 else sstatus_spie);
  };
}

-- The `ecall`, up to the return to the process.
unfoldable pub ecall : Image → Cmd (Unit {0})
ecall img w =
    let v = trap_ecall w in if v.pc == img.smode_trap_vector then smode_trap_vector img v else fault

-- The arguments stand in `a0` to `a7`, and the result is the 32 bits of `a0` that `sw` stores.
unfoldable pub do_user_call : Image → ℕ → ℕ → ℕ → ℕ → ℕ → ℕ → ℕ → ℕ → Cmd ℕ
do_user_call img sysnum a1 a2 a3 a4 a5 a6 a7 w =
    and_then
      (ecall img (record w {
        regs = record (w.regs) {
          a0 = sysnum;
          a1 = a1;
          a2 = a2;
          a3 = a3;
          a4 = a4;
          a5 = a5;
          a6 = a6;
          a7 = a7;
        };
      }))
      λ _ v. ok (v.regs.a0 % u32_mod) v

-- `out` stands at `buf`; the comparison is that of `vprintk`.
unfoldable pub printu : Image → ℕ → List ℕ → List Arg → Cmd ℕ
printu img buf s vl w = elim (vsnprintf (λ i. w.mem (buf + i)) 256 s vl) [
  | none ↦ fault
  | some o ↦
      do_user_call img (sys_user_base + 0) buf (written o) 0 0 0 0 0
        (record w { mem = store_bytes w.mem buf 256 o.buf })
]

-- `code` and `depth` are `int`s, given as the 64 bits that they are extended to.
unfoldable pub exit_user : Image → ℕ → Cmd ℕ
exit_user img code = do_user_call img (sys_user_base + 1) code 0 0 0 0 0 0

unfoldable pub print_backtrace : Image → ℕ → Cmd ℕ
print_backtrace img depth = do_user_call img (sys_user_base + 2) depth 0 0 0 0 0 0

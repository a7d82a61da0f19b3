-- ===== src/Kernel/Trap.antt =====
-- Trap handling in S mode: kernel/strap.c, entered through `smode_trap_vector` of
-- kernel/strap_vector.S with `store_all_registers` of util/load_store.S.
pub mod Vector
pub mod Timer
pub mod Ecall
use lq_os_lab.Base.{
  ℕ, ◌+◌, ◌-◌, ◌*◌, ◌%◌, ◌^◌, bit_and, Bool, true, false, not, List, [], ◌∷◌, ◌==◌, if◌then◌else◌,
  text,
}
use lq_os_lab.Base.Memory.{u64_mod}
use lq_os_lab.Util.Print.{num}
use lq_os_lab.Hart.{
  Regs, Csrs, clear_bits, sstatus_spp, sip_ssip, cause_user_ecall, cause_mtimer_s_trap,
  user_trap_frame,
}
use lq_os_lab.World.{
  Trapframe, Process, ProcessPtr, null, user_app_ptr, World, ok, fault, Cmd, pure, ◌>>=◌, ◌>>◌,
  and_then, modify,
}
use lq_os_lab.Spike.Utils.{sprint, panic, assert_fail}
use lq_os_lab.Kernel.Syscall.{do_syscall}
use lq_os_lab.Kernel.Process.{Image, on_trapframe, switch_to}

unfoldable pub handle_syscall : Cmd (Unit {0})
handle_syscall w =
    let w' = on_trapframe (λ tf. record tf { epc = (tf.epc + 4) % u64_mod }) w in
    let r = w.user_app.trapframe.regs in
    and_then (do_syscall r.a0 r.a1 r.a2 r.a3 r.a4 r.a5 r.a6 r.a7 w')
      λ ret. modify (on_trapframe (λ tf. record tf { regs = record (tf.regs) { a0 = ret } }))

unfoldable pub handle_mtimer_trap : Cmd (Unit {0})
handle_mtimer_trap w = and_then (sprint (text "Ticks %d\n") (num w.g_ticks ∷ []) w) λ _. modify λ v.
    record v {
      g_ticks = (v.g_ticks + 1) % u64_mod;
      csrs = record (v.csrs) { sip = clear_bits v.csrs.sip sip_ssip };
    }

-- The branches on `scause`.
unfoldable pub dispatch : ℕ → Cmd (Unit {0})
dispatch cause =
    if cause == cause_user_ecall
    then handle_syscall
    else if cause == cause_mtimer_s_trap
    then handle_mtimer_trap
    else (λ w.
        (sprint (text "smode_trap_handler(): unexpected scause %p\n") (num w.csrs.scause ∷ [])
            >> sprint (text "            sepc=%p stval=%p\n")
                (num w.csrs.sepc ∷ num w.csrs.stval ∷ [])
            >> panic (text "unexpected exception happened.\n") [])
          w)

unfoldable pub smode_trap_handler : Image → Cmd (Unit {0})
smode_trap_handler img w =
    if not (bit_and w.csrs.sstatus sstatus_spp == 0)
    then panic (text "usertrap: not from user mode") [] w
    else elim w.current [
      | null ↦ assert_fail (text "kernel/strap.c") 60 (text "current") w
      | user_app_ptr ↦
          and_then (dispatch w.csrs.scause (on_trapframe (λ tf. record tf { epc = w.csrs.sepc }) w))
            λ _ v. switch_to img v.current v
    ]

-- What the trap frame holds after the vector's stores. `csrrw` has put the frame's address in `a0`
-- and `addi` in `t6` when `store_all_registers` runs; `a0` is then saved again from `sscratch`.
unfoldable pub saved_regs : ℕ → Regs → Regs
saved_regs frame r = let stored = record r { a0 = frame; t6 = frame } in record stored { a0 = r.a0 }

-- From the vector to the handler. Only a frame at the process's trap frame and the handler that
-- `switch_to` installed are modelled.
unfoldable pub smode_trap_vector : Image → Cmd (Unit {0})
unfolding saved_regs
smode_trap_vector img w =
    let frame = w.csrs.sscratch in
    if frame == user_trap_frame
    then (let v = on_trapframe (λ tf. record tf { regs = saved_regs frame w.regs }) w in
        let tf = v.user_app.trapframe in
        let u = record v {
          pc = tf.kernel_trap;
          regs = record (v.regs) { a0 = frame; t6 = frame; sp = tf.kernel_sp; t0 = tf.kernel_trap };
          csrs = record (v.csrs) { sscratch = w.regs.a0 };
        } in
        if tf.kernel_trap == img.smode_trap_handler then smode_trap_handler img u else fault)
    else fault

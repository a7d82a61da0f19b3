-- ===== src/Kernel/Machine.antt =====
-- Trap handling in M mode: kernel/machine/mtrap.c, entered through `mtrapvec` of
-- kernel/machine/mtrap_vector.S. `write_csr` sets the whole register.
pub mod Tick
use lq_os_lab.Base.{
  ℕ, ◌+◌, ◌-◌, ◌*◌, ◌%◌, ◌/◌, ◌^◌, bit_and, bit_or, Bool, List, [], ◌∷◌, ◌==◌, if◌then◌else◌, text,
}
use lq_os_lab.Base.Memory.{u64_mod}
use lq_os_lab.Util.Print.{num}
use lq_os_lab.Hart.{
  Regs, Csrs, clear_bits, sip_ssip, timer_interval, cause_mtimer, cause_fetch_access,
  cause_illegal_instruction, cause_misaligned_load, cause_load_access, cause_misaligned_store,
  cause_store_access,
}
use lq_os_lab.World.{World, ok, fault, Cmd, ◌>>◌, and_then, modify}
use lq_os_lab.Spike.Utils.{sprint, panic}
use lq_os_lab.Kernel.Process.{Image}

-- The fields of `mstatus`: MIE, MPIE and MPP.
abbrev pub mstatus_mie : ℕ
mstatus_mie = 2 ^ 3

abbrev pub mstatus_mpie : ℕ
mstatus_mpie = 2 ^ 7

abbrev pub mstatus_mpp_mask : ℕ
mstatus_mpp_mask = 3 * 2 ^ 11

-- The compare registers after a write to that of `hart`.
abbrev pub with_timer : ℕ → ℕ → (ℕ → ℕ) → ℕ → ℕ
with_timer hart v timers i = if i == hart then v else timers i

-- The compare register of hart 0 moves on, and the soft interrupt for S mode becomes pending.
unfoldable pub handle_timer : Cmd (Unit {0})
handle_timer = modify λ w. record w {
  mtimecmp = with_timer 0 ((w.mtimecmp 0 + timer_interval) % u64_mod) w.mtimecmp;
  csrs = record (w.csrs) { sip = sip_ssip };
}

unfoldable pub handle_instruction_access_fault : Cmd (Unit {0})
handle_instruction_access_fault = panic (text "Instruction access fault!") []

unfoldable pub handle_load_access_fault : Cmd (Unit {0})
handle_load_access_fault = panic (text "Load access fault!") []

unfoldable pub handle_store_access_fault : Cmd (Unit {0})
handle_store_access_fault = panic (text "Store/AMO access fault!") []

unfoldable pub handle_illegal_instruction : Cmd (Unit {0})
handle_illegal_instruction = panic (text "Illegal instruction!") []

unfoldable pub handle_misaligned_load : Cmd (Unit {0})
handle_misaligned_load = panic (text "Misaligned Load!") []

unfoldable pub handle_misaligned_store : Cmd (Unit {0})
handle_misaligned_store = panic (text "Misaligned AMO!") []

-- The `default` case.
unfoldable pub handle_unexpected : Cmd (Unit {0})
handle_unexpected w =
    (sprint (text "machine trap(): unexpected mscause %p\n") (num w.csrs.mcause ∷ [])
        >> sprint (text "            mepc=%p mtval=%p\n") (num w.csrs.mepc ∷ num w.csrs.mtval ∷ [])
        >> panic (text "unexpected exception happened in M-mode.\n") [])
      w

-- The `switch` on `mcause`; the case of a load access fault has no `break`.
unfoldable pub m_dispatch : ℕ → Cmd (Unit {0})
m_dispatch cause =
    if cause == cause_mtimer
    then handle_timer
    else if cause == cause_fetch_access
    then handle_instruction_access_fault
    else if cause == cause_load_access
    then handle_load_access_fault >> handle_store_access_fault
    else if cause == cause_store_access
    then handle_store_access_fault
    else if cause == cause_illegal_instruction
    then handle_illegal_instruction
    else if cause == cause_misaligned_load
    then handle_misaligned_load
    else if cause == cause_misaligned_store
    then handle_misaligned_store
    else handle_unexpected

unfoldable pub handle_mtrap : Cmd (Unit {0})
handle_mtrap w = m_dispatch w.csrs.mcause w

-- `mret`: back to the mode in MPP, at `mepc`; MIE takes MPIE, MPIE is set and MPP cleared.
unfoldable pub mret : World → World
mret w = record w {
  pc = w.csrs.mepc;
  user_mode = bit_and w.csrs.mstatus mstatus_mpp_mask == 0;
  csrs = record (w.csrs) {
    mstatus =
        bit_or (bit_or (clear_bits w.csrs.mstatus (mstatus_mpp_mask + mstatus_mie)) mstatus_mpie)
          (if bit_and w.csrs.mstatus mstatus_mpie == 0 then 0 else mstatus_mie);
  };
}

-- From the entry to the call: `a0` and `mscratch` are swapped, `t6` takes the frame's address, all
-- registers are stored, then the `a0` that `mscratch` holds, and `mscratch` gets the address back.
unfoldable pub enter_mtrap : World → World
enter_mtrap w =
    let swapped = record w {
      regs = record (w.regs) { a0 = w.csrs.mscratch };
      csrs = record (w.csrs) { mscratch = w.regs.a0 };
    } in
    record swapped {
      g_itrframe = record (swapped.regs) { t6 = swapped.regs.a0; a0 = swapped.csrs.mscratch };
      csrs = record (swapped.csrs) { mscratch = swapped.regs.a0 };
    }

-- The registers between the stores and the restore are the handler's own: `g_itrframe` holds the
-- interrupted ones. Only a frame at `g_itrframe` is modelled.
unfoldable pub mtrapvec : Image → Cmd (Unit {0})
mtrapvec img w =
    let frame = w.csrs.mscratch in
    if frame == img.g_itrframe
    then (and_then (handle_mtrap (enter_mtrap w))
        λ _ v. ok tt (mret (record v { regs = v.g_itrframe })))
    else fault

-- ===== src/Kernel/Process/Resume.antt =====
-- What `switch_to` leaves behind: the process runs in user mode, and the next trap will find the
-- kernel.
use lq_os_lab.Base.{
  ℕ, ◌+◌, ◌-◌, ◌^◌, ◌≡◌, refl, bit_and, bit_or, Bool, true, false, arith, ap, if◌then◌else◌,
}
use lq_os_lab.Base.Bits.{bit, bit-bit_and, bit-bit_or, bit-le, bit_and_one_bit}
use lq_os_lab.Hart.{clear_bits, sstatus_spp, sstatus_spie, user_trap_frame}
use lq_os_lab.World.{user_app_ptr, World, ok}
use lq_os_lab.Kernel.Process.{Image, prepare, return_to_user, sret, switch_to}

-- The state in which user code runs: the trap vector, the trap frame and the kernel's entry in
-- it are in place, and the process is the current one.
pub record IsReady (img : Image) (w : World) : Type 0 where
  pub frame : w.csrs.sscratch ≡ user_trap_frame
  pub vector : w.csrs.stvec ≡ img.smode_trap_vector
  pub handler : w.user_app.trapframe.kernel_trap ≡ img.smode_trap_handler
  pub stack : w.user_app.trapframe.kernel_sp ≡ w.user_app.kstack
  pub running : w.current ≡ user_app_ptr
  pub in_user_mode : w.user_mode ≡ true
  pub spp_clear : bit_and w.csrs.sstatus sstatus_spp ≡ 0

pub spp-zero : (a : ℕ) → bit 8 a ≡ 0 → bit_and a sstatus_spp ≡ 0
spp-zero a e = omega (arith, bit_and_one_bit 8 a)

pub bit-cleared : (k s mask : ℕ) → bit k (2 ^ 64 - 1 - mask) ≡ 0 → bit k (clear_bits s mask) ≡ 0
bit-cleared k s mask m = omega (arith, bit-bit_and k s (2 ^ 64 - 1 - mask))

pub bit-or_zero : (k a b : ℕ) → bit k a ≡ 0 → bit k b ≡ 0 → bit k (bit_or a b) ≡ 0
bit-or_zero k a b p q = omega (arith, bit-bit_or k a b)

pub bit-or_one : (k a b : ℕ) → bit k b ≡ 1 → bit k (bit_or a b) ≡ 1
bit-or_one k a b q = omega (arith, bit-bit_or k a b, bit-le k a)

-- The bits of the constants that the proofs below need.
spp_mask : bit 8 (2 ^ 64 - 1 - sstatus_spp) ≡ 0
unfolding bit
spp_mask = refl

spp_sie_mask : bit 8 (2 ^ 64 - 1 - (sstatus_spp + 2)) ≡ 0
unfolding bit
spp_sie_mask = refl

spie_eight : bit 8 sstatus_spie ≡ 0
unfolding bit
spie_eight = refl

spie_five : bit 5 sstatus_spie ≡ 1
unfolding bit
spie_five = refl

sie_eight : (b : Bool) → bit 8 (if b then 0 else 2) ≡ 0
unfolding bit
sie_eight true = refl
sie_eight false = refl

sie_one : bit 1 2 ≡ 1
unfolding bit
sie_one = refl

module _ (img : Image) (w : World) where
  abbrev pub resumed : World
  resumed = return_to_user (prepare img w)

  pub resumed-pc : resumed.pc ≡ w.user_app.trapframe.epc
  unfolding return_to_user prepare sret
  resumed-pc = refl

  pub resumed-regs : resumed.regs ≡ w.user_app.trapframe.regs
  unfolding return_to_user prepare sret
  resumed-regs = refl

  pub resumed-keeps :
      (resumed.mem ≡ w.mem)
      × (resumed.g_ticks ≡ w.g_ticks)
      × (resumed.csrs.sip ≡ w.csrs.sip)
      × (resumed.host ≡ w.host)
  unfolding return_to_user prepare sret
  resumed-keeps = (refl, refl, refl, refl)

  pub resumed-process :
      resumed.user_app ≡ record (w.user_app) { trapframe = resumed.user_app.trapframe }
  unfolding return_to_user prepare sret
  resumed-process = refl

  pub resumed-console : resumed.stderr_kfd ≡ w.stderr_kfd
  unfolding return_to_user prepare sret
  resumed-console = refl

  pub switch_to-resumed : w.current ≡ user_app_ptr → switch_to img w.current w ≡ ok tt resumed
  unfolding switch_to
  switch_to-resumed c = ap (λ p. switch_to img p w) c

  -- Interrupts are enabled in user mode: SPIE was set when `sret` moved it to SIE.
  pub resumed-interrupts : bit 1 resumed.csrs.sstatus ≡ 1
  unfolding return_to_user prepare sret
  resumed-interrupts =
      let x = bit_or (clear_bits w.csrs.sstatus sstatus_spp) sstatus_spie in
      let set : bit_and x sstatus_spie ≡ 2 ^ 5 = omega (
        arith,
        bit_and_one_bit 5 x,
        bit-or_one 5 (clear_bits w.csrs.sstatus sstatus_spp) sstatus_spie spie_five,
      ) in
      rw set (bit-or_one 1 (bit_or (clear_bits x (sstatus_spp + 2)) sstatus_spie) 2 sie_one)

  -- After `switch_to` the process runs in user mode, and the next trap will find the trap vector, the
  -- process's trap frame with the kernel's stack and handler in it, and the process as the current
  -- one.
  pub resumed-IsReady : IsReady img resumed
  unfolding return_to_user prepare sret
  resumed-IsReady = record {
    frame = refl;
    vector = refl;
    handler = refl;
    stack = refl;
    running = refl;
    in_user_mode = rw (
        spp-zero (bit_or (clear_bits w.csrs.sstatus sstatus_spp) sstatus_spie)
          (bit-or_zero 8 _ _ (bit-cleared 8 w.csrs.sstatus sstatus_spp spp_mask) spie_eight));
    spp_clear = spp-zero _ (
        bit-or_zero 8 _ _
          (bit-or_zero 8 _ _ (bit-cleared 8 _ (sstatus_spp + 2) spp_sie_mask) spie_eight)
          (sie_eight _));
  }

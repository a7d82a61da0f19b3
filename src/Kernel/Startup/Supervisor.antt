-- ===== src/Kernel/Startup/Supervisor.antt =====
-- The end of the start in M mode: the state in which `s_start` begins.
use lq_os_lab.Base.{◌*◌, ℕ, ◌+◌, ◌%◌, ◌^◌, ◌≡◌, ◌≢◌, refl, ap, arith, bit_and, bit_or, false, ◌==◌}
use lq_os_lab.Base.Memory.{u64_mod}
use lq_os_lab.Base.Bits.{bit, bit-bit_and, bit-bit_or, bit-le}
use lq_os_lab.Hart.{clear_bits, timer_interval}
use lq_os_lab.World.{World, ok, and_then}
use lq_os_lab.Kernel.Machine.Tick.{with_timer-same}
use lq_os_lab.Kernel.Process.{Image}
use lq_os_lab.Kernel.Process.Resume.{bit-or_one}
use lq_os_lab.Kernel.Machine.{mstatus_mie, mstatus_mpp_mask, mret}
use lq_os_lab.Kernel.Startup.{
  supports_extension, timerinit, mie_mtie, mstatus_mpp_s, sie_seie, sie_stie, sie_ssie, set_machine,
  set_sie, enter_supervisor,
}
use lq_os_lab.Kernel.Startup.Delegation.{
  IsDelegated, delegated-IsDelegated, delegate_traps-delegated,
}

-- `s_start` runs, in S mode, with the M-mode handler in place, the traps shared out, S-mode
-- interrupts enabled and the timer running.
pub record IsEntered (img : Image) (hartid : ℕ) (w v : World) : Type 0 where
  pub entry : v.pc ≡ img.s_start
  pub supervisor : v.user_mode ≡ false
  pub frame : v.csrs.mscratch ≡ img.g_itrframe
  pub vector : v.csrs.mtvec ≡ img.mtrapvec
  pub shared : IsDelegated v
  pub interrupts : (bit 9 v.csrs.sie ≡ 1) × (bit 5 v.csrs.sie ≡ 1) × (bit 1 v.csrs.sie ≡ 1)
  pub alarm : v.mtimecmp hartid ≡ (w.mtime + timer_interval) % u64_mod
  pub timer : bit 7 v.csrs.mie ≡ 1
  pub same_host : v.host ≡ w.host
  pub same_memory : v.mem ≡ w.mem
  pub same_process : v.user_app ≡ w.user_app
  pub same_devices : (v.htif ≡ w.htif) × (v.g_mem_size ≡ w.g_mem_size)

ones :
    (bit 9 (2 ^ 9) ≡ 1)
    × (bit 5 (2 ^ 5) ≡ 1)
    × (bit 1 (2 ^ 1) ≡ 1)
    × (bit 7 (2 ^ 7) ≡ 1)
    × (bit 11 (2 ^ 11) ≡ 1)
    × (bit 11 (3 * 2 ^ 11) ≡ 1)
    × (bit 11 0 ≡ 0)
unfolding bit
ones = (refl, refl, refl, refl, refl, refl, refl)

or_first : (k a b : ℕ) → bit k a ≡ 1 → bit k (bit_or a b) ≡ 1
or_first k a b h = omega (arith, bit-bit_or k a b, bit-le k b)

-- A set bit of a word that a mask keeps.
kept-apart : (k a m : ℕ) → bit k a ≡ 1 → bit k m ≡ 1 → bit k 0 ≡ 0 → bit_and a m ≢ 0
kept-apart k a m h g z e = absurd (omega (arith, bit-bit_and k a m, ap (bit k) e, h, g, z))

-- From any state of a processor with S mode, the rest of `m_start` returns into `s_start`: in S
-- mode, with the M-mode vector and its frame in place, user system calls and the soft interrupt
-- delegated, the three S-mode interrupts enabled, the hart's timer one interval from now and its
-- interrupt enabled, and nothing printed; memory, the process and what the device tree told stay.
pub enter_supervisor-IsEntered :
    (img : Image) (hartid : ℕ) (w : World)
    → supports_extension b'S' w ≢ 0
    → (v : World) × (enter_supervisor img hartid w ≡ ok tt v) × IsEntered img hartid w v
unfolding enter_supervisor set_machine set_sie timerinit mret supports_extension
enter_supervisor-IsEntered img hartid w s =
    let d = delegated-IsDelegated (set_machine img w) in
    let mpp : bit 11
          (bit_or (bit_or (clear_bits w.csrs.mstatus mstatus_mpp_mask) mstatus_mpp_s) mstatus_mie)
        ≡ 1 =
      or_first 11 _ mstatus_mie
        (bit-or_one 11 (clear_bits w.csrs.mstatus mstatus_mpp_mask) mstatus_mpp_s ones.4) in
    (
      _,
      ap (λ r. and_then r (λ _ v. and_then (timerinit hartid (set_sie v)) λ _ u. ok tt (mret u)))
          (delegate_traps-delegated (set_machine img w) s),
      record {
        entry = refl;
        supervisor =
            (let e : (bit_and
                      (bit_or (bit_or (clear_bits w.csrs.mstatus mstatus_mpp_mask) mstatus_mpp_s)
                        mstatus_mie)
                      mstatus_mpp_mask
                    == 0)
                  ≡ false =
                ground (arith, kept-apart 11 _ mstatus_mpp_mask mpp ones.5 ones.6) in
              e);
        frame = refl;
        vector = refl;
        shared = record {
          ecall = d.ecall;
          fetch_access = d.fetch_access;
          illegal_instruction = d.illegal_instruction;
          misaligned_load = d.misaligned_load;
          load_access = d.load_access;
          misaligned_store = d.misaligned_store;
          store_access = d.store_access;
          soft_interrupt = d.soft_interrupt;
          timer = d.timer;
        };
        interrupts = (
          or_first 9 _ _ (or_first 9 _ _ (bit-or_one 9 w.csrs.sie sie_seie ones.0)),
          or_first 5 _ _ (bit-or_one 5 _ sie_stie ones.1),
          bit-or_one 1 _ sie_ssie ones.2,
        );
        alarm = with_timer-same hartid _ w.mtimecmp;
        timer = bit-or_one 7 w.csrs.mie mie_mtie ones.3;
        same_host = refl;
        same_memory = refl;
        same_process = refl;
        same_devices = (refl, refl);
      },
    )

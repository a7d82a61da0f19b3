-- ===== src/Kernel/Startup/Delegation.antt =====
-- Which traps S mode takes after the start-up, and the timer's first interval.
use Prim.Native.Nat.{max}
use lq_os_lab.Base.{ℕ, ◌+◌, ◌%◌, ◌^◌, ◌≡◌, ◌≢◌, refl, bit_or, false, arith, ◌==◌}
use lq_os_lab.Base.Memory.{u64_mod}
use lq_os_lab.Base.Bits.{bit, bit-bit_or, bit-le}
use lq_os_lab.Hart.{
  timer_interval, cause_user_ecall, cause_fetch_access, cause_illegal_instruction,
  cause_misaligned_load, cause_load_access, cause_misaligned_store, cause_store_access,
}
use lq_os_lab.World.{World, ok}
use lq_os_lab.Kernel.Machine.{with_timer}
use lq_os_lab.Kernel.Machine.Tick.{with_timer-same}
use lq_os_lab.Kernel.Startup.{
  supports_extension, exceptions, interrupts, mie_mtie, check_delegation, delegate_traps, timerinit,
}

-- The system call goes to S mode, and what `handle_mtrap` has a case for stays in M mode.
pub record IsDelegated (v : World) : Type 0 where
  pub ecall : bit cause_user_ecall v.csrs.medeleg ≡ 1
  pub fetch_access : bit cause_fetch_access v.csrs.medeleg ≡ 0
  pub illegal_instruction : bit cause_illegal_instruction v.csrs.medeleg ≡ 0
  pub misaligned_load : bit cause_misaligned_load v.csrs.medeleg ≡ 0
  pub load_access : bit cause_load_access v.csrs.medeleg ≡ 0
  pub misaligned_store : bit cause_misaligned_store v.csrs.medeleg ≡ 0
  pub store_access : bit cause_store_access v.csrs.medeleg ≡ 0
  pub soft_interrupt : bit 1 v.csrs.mideleg ≡ 1
  pub timer : bit 7 v.csrs.mideleg ≡ 0

abbrev pub delegated : World → World
delegated w = record w { csrs = record (w.csrs) { mideleg = interrupts; medeleg = exceptions } }

pub delegated-IsDelegated : (w : World) → IsDelegated (delegated w)
unfolding bit
delegated-IsDelegated w = record {
  ecall = refl;
  fetch_access = refl;
  illegal_instruction = refl;
  misaligned_load = refl;
  load_access = refl;
  misaligned_store = refl;
  store_access = refl;
  soft_interrupt = refl;
  timer = refl;
}

check-passes : (w : World) → check_delegation (delegated w) ≡ ok tt (delegated w)
unfolding check_delegation
check-passes w = refl

pub delegate_traps-delegated :
    (w : World) → supports_extension b'S' w ≢ 0 → delegate_traps w ≡ ok tt (delegated w)
unfolding delegate_traps
delegate_traps-delegated w s =
    let e : (supports_extension b'S' w == 0) ≡ false = ground arith in rw e (check-passes w)

-- On a processor with S mode, `delegate_traps` returns, its assertions hold, and the traps are
-- shared out as the two handlers expect: user system calls and the soft interrupt go to S mode,
-- the faults that the M-mode handler has a case for and the timer stay in M mode.
pub delegate_traps-IsDelegated :
    (w : World)
    → supports_extension b'S' w ≢ 0
    → (v : World) × (delegate_traps w ≡ ok tt v) × IsDelegated v × (v.host ≡ w.host)
delegate_traps-IsDelegated w s =
    (delegated w, delegate_traps-delegated w s, delegated-IsDelegated w, refl)

-- `timerinit` sets the timer of the hart one interval from now and enables the M-mode timer interrupt, and
-- leaves every other enabled interrupt enabled and every other disabled one disabled.
pub timerinit-sets :
    (hartid : ℕ) (w : World) (k : ℕ)
    → (v : World) × (timerinit hartid w ≡ ok tt v)
      × (v.mtimecmp hartid ≡ (w.mtime + timer_interval) % u64_mod)
      × (bit 7 v.csrs.mie ≡ 1)
      × (bit k v.csrs.mie ≡ max (bit k w.csrs.mie) (bit k (2 ^ 7)))
unfolding timerinit
timerinit-sets hartid w k = (
  record w {
    mtimecmp = with_timer hartid ((w.mtime + timer_interval) % u64_mod) w.mtimecmp;
    csrs = record (w.csrs) { mie = bit_or w.csrs.mie mie_mtie };
  },
  refl,
  with_timer-same hartid _ w.mtimecmp,
  omega (arith, bit-bit_or 7 w.csrs.mie (2 ^ 7), seven, bit-le 7 w.csrs.mie),
  bit-bit_or k w.csrs.mie (2 ^ 7),
)
  where
    seven : bit 7 (2 ^ 7) ≡ 1
    seven = unfold bit in refl

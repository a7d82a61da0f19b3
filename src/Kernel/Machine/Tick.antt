-- ===== src/Kernel/Machine/Tick.antt =====
-- What an M-mode trap does: a timer interrupt is passed on to S mode, anything else stops the
-- machine.
use lq_os_lab.Base.{
  ℕ, ◌+◌, ◌%◌, ◌≡◌, ◌≢◌, refl, Bool, true, false, List, [], ◌∷◌, arith, ◌==◌, if◌then◌else◌, text,
  ap, ◌∙◌, inl, inr, ==_self,
}
use lq_os_lab.Base.Memory.{u64_mod}
use lq_os_lab.Base.Bits.{bit}
use lq_os_lab.Util.Print.{num}
use lq_os_lab.Hart.{
  sip_ssip, timer_interval, cause_mtimer, cause_fetch_access, cause_illegal_instruction,
  cause_misaligned_load, cause_load_access, cause_misaligned_store, cause_store_access,
}
use lq_os_lab.World.{World, Run, ok, halted, fault, diverges, Cmd, and_then}
use lq_os_lab.Spike.Utils.{panic}
use lq_os_lab.Spike.Utils.Console.{logged, sprint-cases}
use lq_os_lab.Kernel.Process.{Image}
use lq_os_lab.Kernel.Syscall.Quiet.{Stops, and_then-Stops, panic-Stops}
use lq_os_lab.Kernel.Machine.{
  handle_timer, handle_instruction_access_fault, handle_load_access_fault,
  handle_store_access_fault, handle_illegal_instruction, handle_misaligned_load,
  handle_misaligned_store, handle_unexpected, m_dispatch, handle_mtrap, mret, mtrapvec, enter_mtrap,
  with_timer,
}

pub with_timer-same : (hart v : ℕ) (timers : ℕ → ℕ) → with_timer hart v timers hart ≡ v
with_timer-same hart v timers = let e : (hart == hart) ≡ true = ==_self hart in rw e refl

with_timer-other :
    (hart i v : ℕ) (timers : ℕ → ℕ) → i ≢ hart → with_timer hart v timers i ≡ timers i
with_timer-other hart i v timers h = let e : (i == hart) ≡ false = ground (arith, h) in rw e refl

-- The outcome of a timer interrupt in M mode.
pub record Ticks (img : Image) (w v : World) : Type 0 where
  pub returns : mtrapvec img w ≡ ok tt v
  pub same_regs : v.regs ≡ record (w.regs) { t6 = img.g_itrframe }
  pub same_pc : v.pc ≡ w.csrs.mepc
  pub next_timer : v.mtimecmp 0 ≡ (w.mtimecmp 0 + timer_interval) % u64_mod
  pub other_timers : (hart : ℕ) → hart ≢ 0 → v.mtimecmp hart ≡ w.mtimecmp hart
  pub pending : bit 1 v.csrs.sip ≡ 1
  pub ready : v.csrs.mscratch ≡ img.g_itrframe
  pub same_memory : v.mem ≡ w.mem
  pub same_host : v.host ≡ w.host

if-Stops :
    (c : Bool) (m n : Cmd (Unit {0})) (w : World)
    → Stops (m w)
    → (c ≡ false → Stops (n w))
    → Stops ((if c then m else n) w)
if-Stops true m n w h k = h
if-Stops false m n w h k = k refl

panics : (s : List ℕ) (w : World) → Stops (panic {A = Unit {0}} s [] w)
panics s w = panic-Stops (Unit {0}) s [] w

then-Stops : (r : Run (Unit {0})) (k : Unit {0} → Cmd (Unit {0})) → Stops r → Stops (and_then r k)
then-Stops (ok a w) k h = absurd h
then-Stops (halted w) k h = h
then-Stops fault k h = h
then-Stops diverges k h = h

-- Two lines, then the stop.
unexpected-Stops : (w : World) → Stops (handle_unexpected w)
unfolding handle_unexpected
unexpected-Stops w =
    let last = panic {A = Unit {0}} (text "unexpected exception happened in M-mode.\n") [] in
    let detail = num w.csrs.mepc ∷ num w.csrs.mtval ∷ [] in
    elim (sprint-cases (text "machine trap(): unexpected mscause %p\n") (num w.csrs.mcause ∷ [])
      w) [
        | inl e ↦ rw e tt
        | inr (bytes, e) ↦ rw e (
            and_then-Stops (Unit {0}) (text "            mepc=%p mtval=%p\n") detail
              (logged bytes w) last
              (λ v. panics (text "unexpected exception happened in M-mode.\n") v))
      ]

-- Any cause but the timer's stops the machine.
other-Stops : (cause : ℕ) (w : World) → cause ≢ cause_mtimer → Stops (m_dispatch cause w)
unfolding m_dispatch handle_instruction_access_fault handle_load_access_fault
    handle_store_access_fault handle_illegal_instruction handle_misaligned_load
    handle_misaligned_store
other-Stops cause w other =
    let e : (cause == cause_mtimer) ≡ false = ground arith in
    rw e (
      if-Stops (cause == cause_fetch_access) _ _ w (panics _ w) λ e1.
        if-Stops (cause == cause_load_access) _ _ w (then-Stops _ _ (panics _ w)) λ e2.
          if-Stops (cause == cause_store_access) _ _ w (panics _ w) λ e3.
            if-Stops (cause == cause_illegal_instruction) _ _ w (panics _ w) λ e4.
              if-Stops (cause == cause_misaligned_load) _ _ w (panics _ w) λ e5.
                if-Stops (cause == cause_misaligned_store) _ _ w (panics _ w)
                  λ e6. unexpected-Stops w)

module _ (img : Image) (w : World) where
  -- The state in which the C handler runs, and the one it leaves after a timer interrupt.
  abbrev saved : World
  saved = enter_mtrap w

  abbrev ticked : World
  ticked = record saved {
    mtimecmp = with_timer 0 ((saved.mtimecmp 0 + timer_interval) % u64_mod) saved.mtimecmp;
    csrs = record (saved.csrs) { sip = sip_ssip };
  }

  dispatch-ticked : m_dispatch cause_mtimer saved ≡ ok tt ticked
  unfolding m_dispatch handle_timer
  dispatch-ticked = refl

  -- A timer interrupt in M mode sets the timer of hart 0 one interval on, and no other, and makes the soft interrupt of S
  -- mode pending; the interrupted code goes on with its memory and its registers, all but `t6`,
  -- which the vector overwrites before it saves the registers, and the next M-mode trap finds its
  -- frame in `mscratch`.
  pub mtimer-Ticks :
      w.csrs.mscratch ≡ img.g_itrframe → w.csrs.mcause ≡ cause_mtimer → (v : World) × Ticks img w v
  unfolding mtrapvec enter_mtrap handle_mtrap mret bit
  mtimer-Ticks f c =
      let same_frame : (w.csrs.mscratch == img.g_itrframe) ≡ true = ground arith in
      let e : m_dispatch w.csrs.mcause saved ≡ ok tt ticked =
        ap (λ k. m_dispatch k saved) c ∙ dispatch-ticked in
      (
        mret (record ticked { regs = ticked.g_itrframe }),
        record {
          returns = rw (same_frame, e);
          same_regs = ap (λ x. record (w.regs) { t6 = x }) f;
          same_pc = refl;
          next_timer = with_timer-same 0 _ w.mtimecmp;
          other_timers = λ hart h. with_timer-other 0 hart _ w.mtimecmp h;
          pending = refl;
          ready = f;
          same_memory = refl;
          same_host = refl;
        },
      )

  -- Any other trap in M mode ends the machine's run, or is undefined: `mtrapvec` does not return.
  pub mtrap-Stops : w.csrs.mcause ≢ cause_mtimer → Stops (mtrapvec img w)
  unfolding mtrapvec enter_mtrap handle_mtrap
  mtrap-Stops other = stops (w.csrs.mscratch == img.g_itrframe)
    where
      stops :
          (b : Bool)
          → Stops (
              if b
              then (and_then
                  (m_dispatch w.csrs.mcause saved)
                  λ _ v. ok tt (mret (record v { regs = v.g_itrframe })))
              else fault)
      stops true =
          then-Stops (m_dispatch w.csrs.mcause saved) _ (other-Stops w.csrs.mcause saved other)
      stops false = tt

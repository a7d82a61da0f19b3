-- ===== src/Kernel/Backtrace/Reads.antt =====
-- The walk of `sys_user_backtrace`, kernel/syscall.c, reads memory on the user stack only.
use lq_os_lab.Base.{
  ℕ, zero, suc, ◌+◌, ◌-◌, ◌≤◌, ◌<◌, ◌≡◌, refl, sym, ap, ◌∙◌, Bool, false, not, ◌&&◌, ◌||◌, Option,
  none, some, arith, ltb, leb, ◌==◌, if◌then◌else◌, Bool-cases, inl, inr,
}
use lq_os_lab.Base.Memory.{Mem, sub64, load64}
use lq_os_lab.Hart.{user_stack, dram_base}
use lq_os_lab.Kernel.Backtrace.Bounds.{Walks, sys_user_backtrace-Walks}
use lq_os_lab.Kernel.Backtrace.Blind.{with_mem, run_with, and_then-with, report-Blind}
use lq_os_lab.Kernel.Backtrace.Chain.{sub64-within}
use lq_os_lab.Kernel.Backtrace.Logs.{Logs, valid_lines, report-Returns}
use lq_os_lab.World.{World, null, user_app_ptr, ProcessPtr, ok, fault, Cmd, and_then}
use lq_os_lab.Kernel.Backtrace.{
  outside, after_report, visit, bad_link, backtrace_loop, backtrace_fuel, walk_from,
  sys_user_backtrace, report,
}

-- Two memories hold the same bytes on the user stack above `sp`.
abbrev pub SameStack : ℕ → Mem → Mem → Type 0
SameStack sp m n = (a : ℕ) → sp < a → a < user_stack → m a ≡ n a

module _ (m : Mem) (sp : ℕ) (in_memory : dram_base ≤ sp) where
  load-same :
      (fp k : ℕ) (n : Mem)
      → SameStack sp m n
      → 8 ≤ k
      → k ≤ 16
      → sp < fp
      → fp < user_stack
      → sp < sub64 fp k
      → load64 m (sub64 fp k) ≡ load64 n (sub64 fp k)
  unfolding load64
  load-same fp k n same lo hi above below up =
      let a = sub64 fp k in
      let e : a ≡ fp - k = sub64-within fp k (omega arith) below in
      let at : (i : ℕ) → i < 8 → m (a + i) ≡ n (a + i) =
        λ i lt. same (a + i) (omega (arith, up)) (omega (arith, e)) in
      omega (
        arith,
        same a up (omega (arith, e)),
        at 1 (omega arith),
        at 2 (omega arith),
        at 3 (omega arith),
        at 4 (omega arith),
        at 5 (omega arith),
        at 6 (omega arith),
        at 7 (omega arith),
      )

  inside-bounds :
      (fp : ℕ) → outside 1 sp fp ≡ false → (sp < fp) × (fp < user_stack) × (sp < sub64 fp 8)
  unfolding outside
  inside-bounds fp h = (ground arith, ground arith, ground arith)

  module _ (loop : ℕ → ℕ → Cmd ℕ) (fp : ℕ) (h : outside 1 sp fp ≡ false)
      (enters : (old count : ℕ) (w : World)
        → SameStack sp m w.mem
        → loop old count (with_mem m w) ≡ run_with m (loop old count w)) where
    follow-with :
        (count : ℕ) (w : World)
        → SameStack sp m w.mem
        → (if leb (sub64 fp 16) sp || bad_link (load64 m (sub64 fp 16)) fp
            then ok count (with_mem m w)
            else loop (load64 m (sub64 fp 16)) count (with_mem m w))
          ≡ run_with m (
              if leb (sub64 fp 16) sp || bad_link (load64 w.mem (sub64 fp 16)) fp
              then ok count w
              else loop (load64 w.mem (sub64 fp 16)) count w)
    follow-with count w same = elim (Bool-cases (leb (sub64 fp 16) sp)) [
      | inl low ↦ rw low refl
      | inr high ↦
          let b = inside-bounds fp h in
          let e = load-same fp 16 w.mem same (omega arith) (omega arith) b.0 b.1 (ground arith) in
          rw (high, e)
            (elim (Bool-cases (bad_link (load64 w.mem (sub64 fp 16)) fp)) [
              | inl bad ↦ rw bad refl
              | inr good ↦ rw good (enters (load64 w.mem (sub64 fp 16)) count w same)
            ])
    ]

    after_report-with :
        (count : ℕ) (v : Option Bool) (w : World)
        → SameStack sp m w.mem
        → after_report loop sp fp count v (with_mem m w)
          ≡ run_with m (after_report loop sp fp count v w)
    unfolding after_report
    after_report-with count none w same = refl
    after_report-with count (some valid) w same =
        follow-with (if valid then count + 1 else count) w same

    report-keeps : (r : ℕ) (v : Option Bool) (w u : World) → report r w ≡ ok v u → u.mem ≡ w.mem
    report-keeps r v w u e =
        let l : Logs (valid_lines v) w u = rw e at (report-Returns r w) in
        ap (λ (x : World). x.mem) l.only_host

    visit-with :
        (count : ℕ) (w : World)
        → SameStack sp m w.mem
        → visit loop sp fp count (with_mem m w) ≡ run_with m (visit loop sp fp count w)
    unfolding visit
    visit-with count w same =
        let b = inside-bounds fp h in
        let e = load-same fp 8 w.mem same (omega arith) (omega arith) b.0 b.1 b.2 in
        let r = load64 w.mem (sub64 fp 8) in
        rw e (elim (Bool-cases (r == 0)) [
          | inl z ↦ rw z refl
          | inr n ↦ rw n (
              ap (λ x. and_then x (after_report loop sp fp count)) (report-Blind m r w)
              ∙ and_then-with m (report r w) (after_report loop sp fp count)
                  (after_report loop sp fp count)
                  (λ v u ran.
                    let kept = report-keeps r v w u ran in
                    after_report-with count v u
                      (λ a lo hi. same a lo hi ∙ ap (λ (x : Mem). x a) (sym kept))))
        ])

  loop-with :
      (f max_depth fp count : ℕ) (w : World)
      → SameStack sp m w.mem
      → backtrace_loop f max_depth sp fp count (with_mem m w)
        ≡ run_with m (backtrace_loop f max_depth sp fp count w)
  unfolding backtrace_loop
  loop-with zero max_depth fp count w same = refl
  loop-with (suc f) max_depth fp count w same =
      elim (Bool-cases (not (fp == 0) && ltb count max_depth && not (outside 1 sp fp))) [
        | inl on ↦ rw on (
            visit-with (backtrace_loop f max_depth sp) fp (ground arith)
              (λ old n v s. loop-with f max_depth old n v s) count w same)
        | inr off ↦ rw off refl
      ]

  walk_from-with :
      (max_depth fp : ℕ) (w : World)
      → SameStack sp m w.mem
      → walk_from max_depth sp fp (with_mem m w) ≡ run_with m (walk_from max_depth sp fp w)
  unfolding walk_from
  walk_from-with max_depth fp w same = elim (Bool-cases (fp == 0 || outside 1 sp fp)) [
    | inl off ↦ rw off refl
    | inr on ↦
        let b = inside-bounds fp (ground arith) in
        let e = load-same fp 8 w.mem same (omega arith) (omega arith) b.0 b.1 b.2 in
        rw (on, e)
          (elim (Bool-cases (bad_link (load64 w.mem (sub64 fp 8)) fp)) [
            | inl bad ↦ rw bad refl
            | inr good ↦
                rw good (loop-with backtrace_fuel max_depth (load64 w.mem (sub64 fp 8)) 0 w same)
          ])
  ]

-- The walk of a process whose memory might also be `m`: it ends and counts what it prints, and the
-- other memory makes no difference to it.
abbrev pub OnStack : ℕ → Mem → World → Type 0
OnStack max_depth m w =
    Walks max_depth 0 w (sys_user_backtrace max_depth w)
    × (sys_user_backtrace max_depth (with_mem m w) ≡ run_with m (sys_user_backtrace max_depth w))

-- Where loads succeed, at any address and alignment, and the stack pointer is at least DRAM_BASE, a
-- backtrace of the process reads memory only on the user stack above the stack pointer: with any
-- memory that has the same bytes there it has the same outcome. It comes to an end: it never runs
-- out of fuel nor shuts down. When it returns `n`, then `n` is at most `max_depth`, exactly `n`
-- lines were written to the host, and nothing else in the world has changed. It may also meet
-- undefined behaviour: a process that is NULL, or a name without a NUL.
pub sys_user_backtrace-OnStack :
    (max_depth : ℕ) (m : Mem) (w : World)
    → dram_base ≤ w.user_app.trapframe.regs.sp
    → SameStack w.user_app.trapframe.regs.sp m w.mem
    → OnStack max_depth m w
unfolding sys_user_backtrace
sys_user_backtrace-OnStack max_depth m w in_memory same = (
  sys_user_backtrace-Walks max_depth w,
  elim (Bool-cases (max_depth == 0)) [
    | inl none_wanted ↦ rw none_wanted refl
    | inr wanted ↦ rw wanted (on_current w.current)
  ],
)
  where
    on_current :
        (c : ProcessPtr)
        → elim c [
          | null ↦ fault
          | user_app_ptr ↦
              walk_from max_depth w.user_app.trapframe.regs.sp w.user_app.trapframe.regs.s0
                (with_mem m w)
        ]
          ≡ run_with m (elim c [
            | null ↦ fault
            | user_app_ptr ↦
                walk_from max_depth w.user_app.trapframe.regs.sp w.user_app.trapframe.regs.s0 w
          ])
    on_current null = refl
    on_current user_app_ptr =
        walk_from-with m w.user_app.trapframe.regs.sp in_memory max_depth
          w.user_app.trapframe.regs.s0 w same

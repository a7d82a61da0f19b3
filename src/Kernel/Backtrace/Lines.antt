-- ===== src/Kernel/Backtrace/Lines.antt =====
-- What a backtrace of a well-formed stack prints.
use lq_os_lab.Base.{
  ℕ, zero, suc, ◌+◌, ◌-◌, ◌<◌, ◌≡◌, ◌⊎◌, refl, true, false, ◌||◌, List, [], ◌∷◌, arith, ltb, leb,
  ◌==◌, length, inl, inr, Bool-cases, ap, ◌∙◌,
}
use lq_os_lab.Base.Memory.{load64}
use lq_os_lab.Hart.{user_stack}
use lq_os_lab.World.{World, null, user_app_ptr, Run, ok, fault, and_then}
use lq_os_lab.Spike.Utils.Console.{logged, line}
use lq_os_lab.Kernel.Backtrace.{
  bad_link, after_report, backtrace_loop, backtrace_fuel, walk_from, sys_user_backtrace,
}
use lq_os_lab.Kernel.Backtrace.Labels.{Label, stop, hidden, shown, outcome}
use lq_os_lab.Kernel.Backtrace.Chain.{
  Chain, Chain-bounds, lines, log_all, enter, visit-end, visit-label, after-last, after-next,
  inside, sub64-within,
}

-- The loop's result: the lines of the labels, and their number added to the count.
abbrev Printed : ℕ → ℕ → List Label → World → Run ℕ
Printed count b ls w = ok (count + length (lines b ls)) (log_all (lines b ls) w)

nothing : (count : ℕ) (w : World) → ok count w ≡ ok (count + 0) w
nothing count w = let z : count ≡ count + 0 = omega arith in ap (λ (n : ℕ). ok n w) z

lines-empty : (b : ℕ) → lines b [] ≡ []
unfolding lines
lines-empty zero = refl
lines-empty (suc b) = refl

-- A count that has reached the depth ends the loop.
full :
    (f sp fp count : ℕ) (w : World)
    → backtrace_loop (suc f) (count + 0) sp fp count w ≡ ok (count + 0) w
unfolding backtrace_loop
full f sp fp count w =
    let e : ltb count (count + 0) ≡ false = ground arith in
    elim (Bool-cases (fp == 0)) [
      | inl z ↦ rw z (nothing count w)
      | inr n ↦ rw n (rw e (nothing count w))
    ]

loop-Printed :
    (f b sp fp count : ℕ) (ls : List Label) (w : World)
    → user_stack < f + fp
    → Chain w.mem w.user_app sp fp ls
    → backtrace_loop f (count + b) sp fp count w ≡ Printed count b ls w
unfolding lines
loop-Printed zero b sp fp count ls w fuel c =
    let (h, below) = Chain-bounds w.mem w.user_app sp fp ls c in absurd (omega arith)
loop-Printed (suc f) zero sp fp count ls w fuel c = full f sp fp count w
loop-Printed (suc f) (suc b) sp fp count [] w fuel c =
    enter f b sp fp count w c.0 c.1
    ∙ visit-end (backtrace_loop f (count + suc b) sp) sp fp count w c.0 c.1 c.2
    ∙ nothing count w
loop-Printed (suc f) (suc b) sp fp count (l ∷ ls) w fuel c =
    enter f b sp fp count w c.0 c.1
    ∙ visit-label (backtrace_loop f (count + suc b) sp) sp fp count w c.0 c.1 l c.2 c.3
    ∙ by_label l c.4 (λ b' next n v. loop-Printed f b' sp next n ls v)
  where
    Rest : Label → Type 0
    Rest l =
        (l ≡ stop)
        ⊎ (((load64 w.mem (fp - 16) ≡ 0) × (ls ≡ []))
            ⊎ ((fp < load64 w.mem (fp - 16))
                × Chain w.mem w.user_app sp (load64 w.mem (fp - 16)) ls))

    by_label :
        (l : Label)
        → Rest l
        → ((b' next n : ℕ) (v : World)
            → user_stack < f + next
            → Chain v.mem v.user_app sp next ls
            → backtrace_loop f (n + b') sp next n v ≡ Printed n b' ls v)
        → and_then (outcome l w) (after_report (backtrace_loop f (count + suc b) sp) sp fp count)
          ≡ Printed count (suc b) (l ∷ ls) w
    by_label stop rest ih = unfold after_report in nothing count w
    by_label hidden (inl e) ih = cc
    by_label hidden (inr (inl (z, e))) ih =
        after-last (backtrace_loop f (count + suc b) sp) sp fp count w c.0 c.1 false z
        ∙ rw e (nothing count w)
    by_label hidden (inr (inr (up, c'))) ih =
        let top = Chain-bounds w.mem w.user_app sp (load64 w.mem (fp - 16)) ls c' in
        after-next (backtrace_loop f (count + suc b) sp) sp fp count w c.0 c.1 false up top.1
        ∙ ih (suc b) (load64 w.mem (fp - 16)) count w (omega arith) c'
    by_label (shown t) (inl e) ih = cc
    by_label (shown t) (inr (inl (z, e))) ih =
        after-last (backtrace_loop f (count + suc b) sp) sp fp count (logged (line t) w) c.0 c.1
          true z
        ∙ rw e (rw (lines-empty b) refl)
    by_label (shown t) (inr (inr (up, c'))) ih =
        let next = load64 w.mem (fp - 16) in
        let top = Chain-bounds w.mem w.user_app sp next ls c' in
        let depth : count + suc b ≡ count + 1 + b = omega arith in
        let total : count + 1 + length (lines b ls) ≡ count + suc (length (lines b ls)) =
          omega arith in
        after-next (backtrace_loop f (count + suc b) sp) sp fp count (logged (line t) w) c.0 c.1
          true up top.1
        ∙ ap (λ (d : ℕ). backtrace_loop f d sp next (count + 1) (logged (line t) w)) depth
        ∙ ih b next (count + 1) (logged (line t) w) (omega arith) c'
        ∙ ap (λ (n : ℕ). ok n (log_all (lines b ls) (logged (line t) w))) total

walk_from-Printed :
    (max_depth sp fp : ℕ) (ls : List Label) (w : World)
    → sp + 16 < fp
    → fp < user_stack
    → fp < load64 w.mem (fp - 8)
    → Chain w.mem w.user_app sp (load64 w.mem (fp - 8)) ls
    → walk_from max_depth sp fp w ≡ Printed 0 max_depth ls w
unfolding walk_from bad_link
walk_from-Printed max_depth sp fp ls w h below up c =
    let next = load64 w.mem (fp - 8) in
    let top = Chain-bounds w.mem w.user_app sp next ls c in
    let s = sub64-within fp 8 (omega arith) below in
    let e1 : (fp == 0) ≡ false = ground arith in
    let e2 : (next == 0 || leb next fp || leb user_stack next) ≡ false = ground (arith, top.1) in
    let start : max_depth ≡ 0 + max_depth = omega arith in
    rw e1 (
      rw (inside sp fp h below) (
        rw s (
          rw e2 (
            ap (λ (d : ℕ). backtrace_loop backtrace_fuel d sp next 0 w) start
            ∙ loop-Printed backtrace_fuel max_depth sp next 0 ls w (omega arith) c))))

-- With the process as the current one and `s0` a frame whose saved word starts a chain of frames,
-- all more than 16 bytes above `sp`, below the top of the user stack and each above the one
-- before, the backtrace prints the lines of the frames' labels: a function's name, or the address
-- where no function covers it, without `print_backtrace` and `do_user_call`, up to `main` or
-- the depth; it returns their number and does nothing else.
pub sys_user_backtrace-lines :
    (max_depth : ℕ) (ls : List Label) (w : World)
    → w.current ≡ user_app_ptr
    → w.user_app.trapframe.regs.sp + 16 < w.user_app.trapframe.regs.s0
    → w.user_app.trapframe.regs.s0 < user_stack
    → w.user_app.trapframe.regs.s0 < load64 w.mem (w.user_app.trapframe.regs.s0 - 8)
    → Chain w.mem w.user_app w.user_app.trapframe.regs.sp
        (load64 w.mem (w.user_app.trapframe.regs.s0 - 8))
        ls
    → sys_user_backtrace max_depth w
      ≡ ok (length (lines max_depth ls)) (log_all (lines max_depth ls) w)
unfolding sys_user_backtrace
sys_user_backtrace-lines zero ls w running h below up c = unfold lines in refl
sys_user_backtrace-lines (suc b) ls w running h below up c =
    let sp = w.user_app.trapframe.regs.sp in
    let fp = w.user_app.trapframe.regs.s0 in
    let deep : (suc b == 0) ≡ false = ground arith in
    let n = length (lines (suc b) ls) in
    let total : 0 + n ≡ n = omega arith in
    rw deep (
      ap (λ p. elim p [ null ↦ fault | user_app_ptr ↦ walk_from (suc b) sp fp w ]) running
      ∙ walk_from-Printed (suc b) sp fp ls w h below up c
      ∙ ap (λ (k : ℕ). ok k (log_all (lines (suc b) ls) w)) total)

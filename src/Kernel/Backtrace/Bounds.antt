-- ===== src/Kernel/Backtrace/Bounds.antt =====
-- The walk ends, counts what it prints, and stays within its depth.
use lq_os_lab.Base.{
  ℕ, zero, suc, ◌+◌, ◌-◌, ◌≤◌, ◌<◌, ◌≡◌, refl, Bool, true, false, not, ◌&&◌, ◌||◌, Option, none,
  some, arith, ltb, leb, ◌==◌, if◌then◌else◌,
}
use lq_os_lab.Base.Memory.{sub64, load64}
use lq_os_lab.Hart.{user_stack}
use lq_os_lab.World.{
  World, null, user_app_ptr, ProcessPtr, Run, ok, halted, fault, diverges, Cmd, and_then,
}
use lq_os_lab.Kernel.Backtrace.{
  outside, after_report, visit, bad_link, backtrace_loop, backtrace_fuel, walk_from,
  sys_user_backtrace,
}
use lq_os_lab.Kernel.Backtrace.Logs.{
  Logs, Logs-zero, Logs-add, Returns, valid_lines, report-Returns,
}

-- The result of the loop entered with `count`: the lines printed are the count's increase, and
-- it does not pass `max_depth` if it did not before.
abbrev pub Walks : ℕ → ℕ → World → Run ℕ → Type 0
Walks max_depth count w (ok n v) = Logs (n - count) w v × (count ≤ n) × (n ≤ max_depth)
Walks max_depth count w (halted v) = ⊥
Walks max_depth count w fault = Unit
Walks max_depth count w diverges = ⊥

Walks-more :
    (max_depth count more : ℕ) {w v : World} (r : Run ℕ)
    → Logs more w v
    → Walks max_depth (count + more) v r
    → Walks max_depth count w r
Walks-more max_depth count more {w} (ok n u) l h = (
  Logs-add more (n - (count + more)) (n - count) w l h.0 (omega (arith, h.1)),
  omega (arith, h.1),
  h.2,
)
Walks-more max_depth count more (halted u) l h = h
Walks-more max_depth count more fault l h = tt
Walks-more max_depth count more diverges l h = h

here : (max_depth count : ℕ) (w : World) → count ≤ max_depth → Walks max_depth count w (ok count w)
here max_depth count w le =
    let z : 0 ≡ count - count = omega arith in (rw (← z) (Logs-zero w), omega arith, le)

if-Walks :
    (d c : ℕ) (w : World) (b : Bool) (r s : Run ℕ)
    → (b ≡ true → Walks d c w r)
    → (b ≡ false → Walks d c w s)
    → Walks d c w (if b then r else s)
if-Walks d c w true r s h k = h refl
if-Walks d c w false r s h k = k refl

right : (b c : Bool) → (b || c) ≡ false → c ≡ false
right true c e = cc
right false c e = e

module _ (loop : ℕ → ℕ → Cmd ℕ) (max_depth sp fp : ℕ)
    (enters : (old count : ℕ) (w : World)
      → bad_link old fp ≡ false
      → count ≤ max_depth
      → Walks max_depth count w (loop old count w)) where
  after_report-Walks :
      (count : ℕ) (v : Option Bool) (w : World)
      → count < max_depth
      → Walks max_depth (count + valid_lines v) w (after_report loop sp fp count v w)
  unfolding after_report
  after_report-Walks count none w lt =
      let z : count + 0 ≡ count = omega arith in rw z (here max_depth count w (omega arith))
  after_report-Walks count (some true) w lt =
      let up : count + 1 ≤ max_depth = omega arith in
      if-Walks max_depth (count + 1) w
        (leb (sub64 fp 16) sp || bad_link (load64 w.mem (sub64 fp 16)) fp) (ok (count + 1) w) _
        (λ e. here max_depth (count + 1) w up)
        λ e.
          enters (load64 w.mem (sub64 fp 16)) (count + 1) w
            (right (leb (sub64 fp 16) sp) (bad_link (load64 w.mem (sub64 fp 16)) fp) e) up
  after_report-Walks count (some false) w lt =
      let z : count + 0 ≡ count = omega arith in
      let le : count ≤ max_depth = omega arith in
      rw z (
        if-Walks max_depth count w
          (leb (sub64 fp 16) sp || bad_link (load64 w.mem (sub64 fp 16)) fp) (ok count w) _
          (λ e. here max_depth count w le)
          λ e.
            enters (load64 w.mem (sub64 fp 16)) count w
              (right (leb (sub64 fp 16) sp) (bad_link (load64 w.mem (sub64 fp 16)) fp) e) le)

  follows :
      (count : ℕ) (w : World) (r : Run (Option Bool))
      → count < max_depth
      → Returns valid_lines w r
      → Walks max_depth count w (and_then r (after_report loop sp fp count))
  follows count w (ok v u) lt l =
      Walks-more max_depth count (valid_lines v) _ l (after_report-Walks count v u lt)
  follows count w (halted u) lt l = l
  follows count w fault lt l = tt
  follows count w diverges lt l = l

  visit-Walks :
      (count : ℕ) (w : World)
      → count < max_depth
      → Walks max_depth count w (visit loop sp fp count w)
  unfolding visit
  visit-Walks count w lt =
      let le : count ≤ max_depth = omega arith in
      if-Walks max_depth count w (load64 w.mem (sub64 fp 8) == 0) (ok count w) _
        (λ e. here max_depth count w le)
        λ e. follows count w _ lt (report-Returns (load64 w.mem (sub64 fp 8)) w)

bad_link-grows : (old fp : ℕ) → bad_link old fp ≡ false → (fp < old) × (old < user_stack)
unfolding bad_link
bad_link-grows old fp h = ground arith

loop-Walks :
    (f max_depth sp fp count : ℕ) (w : World)
    → user_stack - fp < f
    → count ≤ max_depth
    → Walks max_depth count w (backtrace_loop f max_depth sp fp count w)
unfolding backtrace_loop
loop-Walks zero max_depth sp fp count w fuel le = absurd (omega arith)
loop-Walks (suc f) max_depth sp fp count w fuel le =
    if-Walks max_depth count w (not (fp == 0) && ltb count max_depth && not (outside 1 sp fp))
      (visit (backtrace_loop f max_depth sp) sp fp count w) (ok count w)
      (λ e.
        visit-Walks (backtrace_loop f max_depth sp) max_depth sp fp
          (λ old n v good.
            loop-Walks f max_depth sp old n v (omega (arith, bad_link-grows old fp good)))
          count w (ground arith))
      (λ e. here max_depth count w le)

walk_from-Walks :
    (max_depth sp fp : ℕ) (w : World) → Walks max_depth 0 w (walk_from max_depth sp fp w)
unfolding walk_from
walk_from-Walks max_depth sp fp w =
    let le : 0 ≤ max_depth = omega arith in
    let old = load64 w.mem (sub64 fp 8) in
    if-Walks max_depth 0 w (fp == 0 || outside 1 sp fp) (ok 0 w) _ (λ e. here max_depth 0 w le)
      λ e.
        if-Walks max_depth 0 w (bad_link old fp) (ok 0 w) _ (λ e'. here max_depth 0 w le)
          λ e'. loop-Walks backtrace_fuel max_depth sp old 0 w (omega arith) le

-- A backtrace of the process comes to an end: it never runs out of fuel nor shuts down. When it
-- returns `n`, then `n` is at most `max_depth`, exactly `n` lines were written to the host, and
-- nothing else in the world has changed.
pub sys_user_backtrace-Walks :
    (max_depth : ℕ) (w : World) → Walks max_depth 0 w (sys_user_backtrace max_depth w)
unfolding sys_user_backtrace
sys_user_backtrace-Walks max_depth w =
    let le : 0 ≤ max_depth = omega arith in
    if-Walks max_depth 0 w (max_depth == 0) (ok 0 w) _ (λ e. here max_depth 0 w le)
      (λ e. on_current w.current)
  where
    on_current :
        (c : ProcessPtr)
        → Walks max_depth 0 w (elim c [
          | null ↦ fault
          | user_app_ptr ↦
              walk_from max_depth w.user_app.trapframe.regs.sp w.user_app.trapframe.regs.s0 w
        ])
    on_current null = tt
    on_current user_app_ptr = walk_from-Walks max_depth _ _ w

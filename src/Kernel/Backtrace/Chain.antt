-- ===== src/Kernel/Backtrace/Chain.antt =====
-- Chains of frames on the user stack, and one round of the walk along them.
use lq_os_lab.Base.{
  ℕ, zero, suc, ◌+◌, ◌-◌, ◌^◌, ◌<◌, ◌≤◌, ◌≡◌, ◌≢◌, ◌⊎◌, refl, sym, Bool, true, false, ◌||◌, none,
  some, List, [], ◌∷◌, arith, ltb, leb, ◌==◌, if◌then◌else◌, length, inl, inr, ap, ◌∙◌,
}
use lq_os_lab.Base.Memory.{Mem, sub64, load64}
use lq_os_lab.Util.Strings.Lexical.{StandsAt}
use lq_os_lab.Hart.{user_stack}
use lq_os_lab.World.{Process, World, ok, Cmd, and_then}
use lq_os_lab.Spike.Utils.Console.{logged, line}
use lq_os_lab.Kernel.Backtrace.{
  find_symbol_name, name_at, report, outside, bad_link, after_report, visit, backtrace_loop,
}
use lq_os_lab.Kernel.Backtrace.Labels.{
  Label, stop, hidden, shown, name_label, outcome, address_line, report-address, report-named,
}

-- The label of a return address: that of its function's name, or its own digits.
abbrev pub ReadsAs : Process → ℕ → Label → Type 0
ReadsAs p r l =
    ((find_symbol_name p r ≡ none) × (l ≡ shown (address_line r)))
    ⊎ ((off : ℕ) × ((t : List ℕ) × (find_symbol_name p r ≡ some off)
          × StandsAt (name_at p off) 0 t
          × (length t < 2 ^ 30)
          × (l ≡ name_label t)))

-- A chain of frames from `fp` on, with their labels: a frame lies between `sp` and the top of the
-- user stack, its return address stands below `fp` and the next frame pointer below that. The
-- last frame is one that the walk stops at, or whose link or return address is 0.
abbrev pub Chain : Mem → Process → ℕ → ℕ → List Label → Type 0
Chain m p sp fp [] = (sp + 16 < fp) × (fp < user_stack) × (load64 m (fp - 8) ≡ 0)
Chain m p sp fp (l ∷ ls) =
    (sp + 16 < fp)
    × (fp < user_stack)
    × (load64 m (fp - 8) ≢ 0)
    × ReadsAs p (load64 m (fp - 8)) l
    × ((l ≡ stop)
        ⊎ (((load64 m (fp - 16) ≡ 0) × (ls ≡ []))
            ⊎ ((fp < load64 m (fp - 16)) × Chain m p sp (load64 m (fp - 16)) ls)))

-- The lines of a backtrace, at most as many as the depth: up to the first frame to stop at, and
-- without the hidden ones.
unfoldable pub lines : ℕ → List Label → List (List ℕ)
lines zero ls = []
lines (suc b) [] = []
lines (suc b) (stop ∷ ls) = []
lines (suc b) (hidden ∷ ls) = lines (suc b) ls
lines (suc b) (shown t ∷ ls) = t ∷ lines b ls

abbrev pub log_all : List (List ℕ) → World → World
log_all [] w = w
log_all (t ∷ ts) w = log_all ts (logged (line t) w)

pub Chain-bounds :
    (m : Mem) (p : Process) (sp fp : ℕ) (ls : List Label)
    → Chain m p sp fp ls
    → (sp + 16 < fp) × (fp < user_stack)
Chain-bounds m p sp fp [] c = (c.0, c.1)
Chain-bounds m p sp fp (l ∷ ls) c = (c.0, c.1)

report-outcome : (r : ℕ) (l : Label) (w : World) → ReadsAs w.user_app r l → report r w ≡ outcome l w
report-outcome r l w (inl (e, same)) = report-address r w e ∙ ap (λ k. outcome k w) (sym same)
report-outcome r l w (inr (off, (t, e, s, h, same))) =
    report-named r off t w e s h ∙ ap (λ k. outcome k w) (sym same)

-- Within the stack the subtractions of the code do not wrap.
pub sub64-within : (fp k : ℕ) → k ≤ fp → fp < user_stack → sub64 fp k ≡ fp - k
sub64-within fp k h below = omega arith

pub inside : (sp fp : ℕ) → sp + 16 < fp → fp < user_stack → outside 1 sp fp ≡ false
unfolding outside
inside sp fp h below = let e = sub64-within fp 8 (omega arith) below in ground (arith, e)

pub enter :
    (f b sp fp count : ℕ) (w : World)
    → sp + 16 < fp
    → fp < user_stack
    → backtrace_loop (suc f) (count + suc b) sp fp count w
      ≡ visit (backtrace_loop f (count + suc b) sp) sp fp count w
unfolding backtrace_loop
enter f b sp fp count w h below =
    let e1 : (fp == 0) ≡ false = ground arith in
    let e2 : ltb count (count + suc b) ≡ true = ground arith in
    rw (e1, e2, inside sp fp h below) refl

module _ (loop : ℕ → ℕ → Cmd ℕ) (sp fp count : ℕ) (w : World) (h : sp + 16 < fp)
    (below : fp < user_stack) where
  pub visit-end : load64 w.mem (fp - 8) ≡ 0 → visit loop sp fp count w ≡ ok count w
  unfolding visit
  visit-end z =
      let e : (load64 w.mem (sub64 fp 8) == 0) ≡ true =
        rw (sub64-within fp 8 (omega arith) below) (ground arith) in
      rw e refl

  pub visit-label :
      (l : Label)
      → load64 w.mem (fp - 8) ≢ 0
      → ReadsAs w.user_app (load64 w.mem (fp - 8)) l
      → visit loop sp fp count w ≡ and_then (outcome l w) (after_report loop sp fp count)
  unfolding visit
  visit-label l n reads =
      let s = sub64-within fp 8 (omega arith) below in
      let e : (load64 w.mem (fp - 8) == 0) ≡ false = ground arith in
      rw s (
        rw e (
          ap (λ r. and_then r (after_report loop sp fp count))
            (report-outcome (load64 w.mem (fp - 8)) l w reads)))

  abbrev pub counted : Bool → ℕ
  counted v = if v then count + 1 else count

  pub after-last :
      (v : Bool)
      → load64 w.mem (fp - 16) ≡ 0
      → after_report loop sp fp count (some v) w ≡ ok (counted v) w
  unfolding after_report bad_link
  after-last v z =
      let s = sub64-within fp 16 (omega arith) below in
      let e : (leb (fp - 16) sp || bad_link (load64 w.mem (fp - 16)) fp) ≡ true = ground arith in
      rw s (rw e refl)

  pub after-next :
      (v : Bool)
      → fp < load64 w.mem (fp - 16)
      → load64 w.mem (fp - 16) < user_stack
      → after_report loop sp fp count (some v) w ≡ loop (load64 w.mem (fp - 16)) (counted v) w
  unfolding after_report bad_link
  after-next v up top =
      let s = sub64-within fp 16 (omega arith) below in
      let e : (leb (fp - 16) sp || bad_link (load64 w.mem (fp - 16)) fp) ≡ false = ground arith in
      rw s (rw e refl)

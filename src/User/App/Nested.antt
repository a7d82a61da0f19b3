-- ===== src/User/App/Nested.antt =====
-- What nested calls print: the backtrace sees the frames of all of them.
use mathlib.Core.Path.{subst}
use lq_os_lab.Base.{ℕ, suc, ◌-◌, ◌*◌, ◌<◌, ◌≤◌, ◌≡◌, ◌≢◌, ◌⊎◌, sym, ap, ◌∙◌, arith, inr, List, ◌∷◌}
use lq_os_lab.Base.Memory.{u64_mod, load64}
use lq_os_lab.Hart.{user_stack}
use lq_os_lab.World.{Process, World, ok, Cmd}
use lq_os_lab.World.Runs.{and_then-ok}
use lq_os_lab.Kernel.Backtrace.Chain.{ReadsAs, Chain, Chain-bounds, lines, log_all}
use lq_os_lab.Kernel.Backtrace.Frames.{log_all-host}
use lq_os_lab.Kernel.Backtrace.Labels.{Label, stop}
use lq_os_lab.Kernel.Process.{Image}
use lq_os_lab.Kernel.Process.Resume.{IsReady}
use lq_os_lab.User.{print_backtrace}
use lq_os_lab.User.Library.{print_backtrace-lines}
use lq_os_lab.User.App.{Convention, call, backtrace_body}
use lq_os_lab.User.App.Frames.{IsConvention, Chain-above, entered-Chain}

-- A return address, which is not NULL, and its label.
abbrev pub Named : Process → ℕ → Label → Type 0
Named p r l = (r ≢ 0) × (r < u64_mod) × ReadsAs p r l

module _ {img : Image} {c : Convention} (conv : IsConvention img c) where
  -- A run that returns and prints the lines of `out`.
  abbrev pub Prints : Cmd (Unit {0}) → List Label → World → Type 0
  Prints g out w =
      (v : World) × (g w ≡ ok tt v)
      × IsReady img v
      × (v.host ≡ (log_all (lines 8 out) w).host)
      × (v.stderr_kfd ≡ w.stderr_kfd)

  -- With room for `n` frames and `ls` as the chain of the frames so far.
  abbrev pub Works : ℕ → Process → List Label → List Label → Cmd (Unit {0}) → Type 0
  Works n p ls out g =
      (w : World)
      → IsReady img w
      → w.user_app ≡ p
      → 256 * n ≤ w.regs.sp
      → w.regs.sp < user_stack
      → Chain w.mem w.user_app (w.regs.sp - 1) w.regs.s0 ls
      → Prints g out w

  pub backtrace_body-Works :
      (p : Process) (ls : List Label) → Works 1 p ls ls (backtrace_body c img)
  backtrace_body-Works p ls w r same room below ch =
      let u = c.enter_leaf w in
      let size = conv.leaf_size w (omega arith) in
      let top = conv.leaf_frame w in
      let bounds = Chain-bounds w.mem w.user_app (w.regs.sp - 1) w.regs.s0 ls ch in
      let link : load64 u.mem (u.regs.s0 - 8) ≡ w.regs.s0 =
        ap (λ x. load64 u.mem (x - 8)) top
        ∙ conv.leaf_link w (omega arith) (omega (arith, bounds.1)) in
      let moved : Chain u.mem w.user_app u.regs.sp w.regs.s0 ls =
        Chain-above w.mem u.mem w.user_app (w.regs.sp - 1) u.regs.sp w.regs.s0 ls
          (λ b h. conv.leaf_above w b (omega arith) (omega arith)) (omega (arith, size)) ch in
      let (v, e, after, host) =
        print_backtrace-lines img u 8 ls (conv.leaf_ready w r) (omega (arith, size, top))
          (omega (arith, top, below)) (omega (arith, link, top, bounds.0))
          (subst (λ x. Chain u.mem u.user_app u.regs.sp x ls) (sym link)
            (subst (λ q. Chain u.mem q u.regs.sp w.regs.s0 ls) (sym (conv.leaf_process w))
              moved)) in
      let console = conv.leaf_console w in
      (
        c.leave v,
        and_then-ok (print_backtrace img 8 u) (λ _ v. ok tt (c.leave v)) _ v e,
        conv.leave_ready v after.ready,
        (conv.leave_console v).0 ∙ host ∙ log_all-host (lines 8 ls) u w console.0 console.1,
        (conv.leave_console v).1 ∙ after.same_console ∙ console.1,
      )

  pub call-Prints :
      (n r : ℕ) (l : Label) (ls out : List Label) (g : Cmd (Unit {0})) (w : World)
      → IsReady img w
      → 256 * suc n ≤ w.regs.sp
      → w.regs.sp < user_stack
      → Named w.user_app r l
      → (l ≡ stop) ⊎ Chain w.mem w.user_app (w.regs.sp - 1) w.regs.s0 ls
      → Works n w.user_app (l ∷ ls) out g
      → Prints (call c r g) out w
  call-Prints n r l ls out g w ready room below named rest works =
      let u = c.enter r w in
      let size = conv.size r w (omega arith) in
      let (v, e, after, host, console) =
        works u (conv.ready r w ready) (conv.process r w) (omega (arith, size.1))
          (omega (arith, size.0))
          (entered-Chain conv r l ls w (omega arith) below named.0 named.1 named.2 rest) in
      let outside = conv.console r w in
      (
        c.leave v,
        and_then-ok (g u) (λ _ v. ok tt (c.leave v)) tt v e,
        conv.leave_ready v after,
        (conv.leave_console v).0 ∙ host ∙ log_all-host (lines 8 out) u w outside.0 outside.1,
        (conv.leave_console v).1 ∙ console ∙ outside.1,
      )

  pub call-Works :
      (n r : ℕ) (p : Process) (l : Label) (ls out : List Label) (g : Cmd (Unit {0}))
      → Named p r l
      → Works n p (l ∷ ls) out g
      → Works (suc n) p ls out (call c r g)
  call-Works n r p l ls out g named works w ready same room below ch =
      call-Prints n r l ls out g w ready room below (subst (λ q. Named q r l) (sym same) named)
        (inr ch) (subst (λ q. Works n q (l ∷ ls) out g) (sym same) works)

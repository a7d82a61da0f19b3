-- ===== src/User/App/Frames.antt =====
-- What the calling convention promises, and the chain of frames that calls build.
use mathlib.Core.Path.{subst}
use lq_os_lab.Base.{
  ◌⊎◌, ℕ, ◌+◌, ◌-◌, ◌<◌, ◌≤◌, ◌≡◌, ◌≢◌, refl, sym, ◌∙◌, arith, inl, inr, List, [], ◌∷◌,
}
use lq_os_lab.Base.Memory.{Mem, u64_mod, load64}
use lq_os_lab.Hart.{user_stack}
use lq_os_lab.World.{Process, World}
use lq_os_lab.Kernel.Backtrace.Chain.{ReadsAs, Chain, Chain-bounds}
use lq_os_lab.Kernel.Backtrace.Labels.{Label, stop}
use lq_os_lab.Kernel.Process.{Image}
use lq_os_lab.Kernel.Process.Resume.{IsReady}
use lq_os_lab.User.App.{Convention}

-- A frame of at most 256 bytes, at whose top a function saves its return address and its caller's
-- frame pointer, or, if it makes no calls, the latter alone; the memory above is not written, nor
-- is what the kernel keeps. Returning only moves registers.
pub record IsConvention (img : Image) (c : Convention) : Type 0 where
  pub frame : (r : ℕ) (w : World) → (c.enter r w).regs.s0 ≡ w.regs.sp
  pub size :
      (r : ℕ) (w : World)
      → 256 ≤ w.regs.sp
      → ((c.enter r w).regs.sp + 16 ≤ w.regs.sp) × (w.regs.sp ≤ (c.enter r w).regs.sp + 256)
  pub address :
      (r : ℕ) (w : World)
      → 256 ≤ w.regs.sp
      → r < u64_mod
      → load64 (c.enter r w).mem (w.regs.sp - 8) ≡ r
  pub link :
      (r : ℕ) (w : World)
      → 256 ≤ w.regs.sp
      → w.regs.s0 < u64_mod
      → load64 (c.enter r w).mem (w.regs.sp - 16) ≡ w.regs.s0
  pub above :
      (r : ℕ) (w : World) (a : ℕ) → 256 ≤ w.regs.sp → w.regs.sp ≤ a → (c.enter r w).mem a ≡ w.mem a
  pub process : (r : ℕ) (w : World) → (c.enter r w).user_app ≡ w.user_app
  pub console :
      (r : ℕ) (w : World)
      → ((c.enter r w).host ≡ w.host) × ((c.enter r w).stderr_kfd ≡ w.stderr_kfd)
  pub ready : (r : ℕ) (w : World) → IsReady img w → IsReady img (c.enter r w)
  pub leaf_frame : (w : World) → (c.enter_leaf w).regs.s0 ≡ w.regs.sp
  pub leaf_size : (w : World) → 256 ≤ w.regs.sp → ((c.enter_leaf w).regs.sp + 16 < w.regs.sp)
  pub leaf_link :
      (w : World)
      → 256 ≤ w.regs.sp
      → w.regs.s0 < u64_mod
      → load64 (c.enter_leaf w).mem (w.regs.sp - 8) ≡ w.regs.s0
  pub leaf_above :
      (w : World) (a : ℕ) → 256 ≤ w.regs.sp → w.regs.sp ≤ a → (c.enter_leaf w).mem a ≡ w.mem a
  pub leaf_process : (w : World) → (c.enter_leaf w).user_app ≡ w.user_app
  pub leaf_console :
      (w : World) → ((c.enter_leaf w).host ≡ w.host) × ((c.enter_leaf w).stderr_kfd ≡ w.stderr_kfd)
  pub leaf_ready : (w : World) → IsReady img w → IsReady img (c.enter_leaf w)
  pub leave_ready : (w : World) → IsReady img w → IsReady img (c.leave w)
  pub leave_console :
      (w : World) → ((c.leave w).host ≡ w.host) × ((c.leave w).stderr_kfd ≡ w.stderr_kfd)

load64-above :
    (m m' : Mem) (lo a : ℕ) → ((b : ℕ) → lo < b → m' b ≡ m b) → lo < a → load64 m' a ≡ load64 m a
unfolding load64
load64-above m m' lo a same h =
    rw
      (
        same a h,
        same (a + 1) (omega arith),
        same (a + 2) (omega arith),
        same (a + 3) (omega arith),
        same (a + 4) (omega arith),
        same (a + 5) (omega arith),
        same (a + 6) (omega arith),
        same (a + 7) (omega arith),
      )
      refl

-- A chain stays one when the memory below it changes.
pub Chain-above :
    (m m' : Mem) (p : Process) (lo lo' fp : ℕ) (ls : List Label)
    → ((b : ℕ) → lo < b → m' b ≡ m b)
    → lo' ≤ lo
    → Chain m p lo fp ls
    → Chain m' p lo' fp ls
Chain-above m m' p lo lo' fp [] same le (a, b, z) =
    (omega arith, b, load64-above m m' lo (fp - 8) same (omega arith) ∙ z)
Chain-above m m' p lo lo' fp (l ∷ ls) same le (a, b, n, reads, rest) =
    let here = load64-above m m' lo (fp - 8) same (omega arith) in
    let next = load64-above m m' lo (fp - 16) same (omega arith) in
    (
      omega arith,
      b,
      (λ z. n (sym here ∙ z)),
      subst (λ r. ReadsAs p r l) (sym here) reads,
      elim rest [
        | inl last ↦ inl last
        | inr (inl (z, last)) ↦ inr (inl (next ∙ z, last))
        | inr (inr (up, c)) ↦ inr (
            inr (
              subst (λ x. fp < x) (sym next) up,
              subst (λ x. Chain m' p lo' x ls) (sym next)
                  (Chain-above m m' p lo lo' (load64 m (fp - 16)) ls same le c),
            ))
      ],
    )

module _ {img : Image} {c : Convention} (conv : IsConvention img c) where
  -- A call adds its frame to the chain.
  pub entered-Chain :
      (r : ℕ) (l : Label) (ls : List Label) (w : World)
      → 256 ≤ w.regs.sp
      → w.regs.sp < user_stack
      → r ≢ 0
      → r < u64_mod
      → ReadsAs w.user_app r l
      → (l ≡ stop) ⊎ Chain w.mem w.user_app (w.regs.sp - 1) w.regs.s0 ls
      → Chain
          (c.enter r w).mem
          (c.enter r w).user_app
          ((c.enter r w).regs.sp - 1)
          (c.enter r w).regs.s0
          (l ∷ ls)
  entered-Chain r l ls w room below nz fits reads rest =
      let v = c.enter r w in
      let addr = conv.address r w room fits in
      let size = conv.size r w room in
      let chain : Chain v.mem w.user_app (v.regs.sp - 1) w.regs.sp (l ∷ ls) = (
        omega (arith, size.0),
        below,
        (λ z. nz (sym addr ∙ z)),
        subst (λ x. ReadsAs w.user_app x l) (sym addr) reads,
        elim rest [
          | inl last ↦ inl last
          | inr ch ↦
              let bounds = Chain-bounds w.mem w.user_app (w.regs.sp - 1) w.regs.s0 ls ch in
              let link = conv.link r w room (omega (arith, bounds.1)) in
              inr (
                inr (
                  subst (λ x. w.regs.sp < x) (sym link) (omega (arith, bounds.0)),
                  subst (λ x. Chain v.mem w.user_app (v.regs.sp - 1) x ls) (sym link)
                      (Chain-above w.mem v.mem w.user_app (w.regs.sp - 1) (v.regs.sp - 1) w.regs.s0
                        ls (λ b h. conv.above r w b room (omega arith)) (omega (arith, size.0)) ch),
                ))
        ],
      ) in
      subst (λ p. Chain v.mem p (v.regs.sp - 1) v.regs.s0 (l ∷ ls)) (sym (conv.process r w))
        (subst (λ x. Chain v.mem w.user_app (v.regs.sp - 1) x (l ∷ ls)) (sym (conv.frame r w))
          chain)

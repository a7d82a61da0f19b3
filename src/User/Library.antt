-- ===== src/User/Library.antt =====
-- What `printu`, `print_backtrace` and `exit` do: from the user's registers to the host.
use Prim.Native.Nat.{min}
use lq_os_lab.Base.{
  ℕ, suc, ◌+◌, ◌-◌, ◌%◌, ◌<◌, ◌≡◌, ◌≢◌, refl, ap, ◌∙◌, arith, true, false, Option, none, some, List,
  [], ◌∷◌, ltb, leb, length, get_or,
}
use lq_os_lab.Base.Memory.{Mem, u32_mod, load64}
use lq_os_lab.Util.Print.{Arg, Out, vsnprintf, int_arg}
use lq_os_lab.Util.Print.Spec.{render}
use lq_os_lab.Util.Print.Refine.{Prints, PrintsLike, vsnprintf-render}
use lq_os_lab.Util.Strings.{CharPtr, chars}
use lq_os_lab.Util.Strings.Lexical.{StandsAt}
use lq_os_lab.Util.Strings.Chars.{chars-text}
use lq_os_lab.Hart.{user_stack}
use lq_os_lab.World.{World, write, exit, ok, halted, fault}
use lq_os_lab.Spike.Utils.{written}
use lq_os_lab.Spike.Utils.Console.{logged}
use lq_os_lab.Kernel.Elf.{store_bytes}
use lq_os_lab.Kernel.Backtrace.{sys_user_backtrace}
use lq_os_lab.Kernel.Backtrace.Chain.{Chain, lines, log_all}
use lq_os_lab.Kernel.Backtrace.Frames.{Chain-frame, log_all-host}
use lq_os_lab.Kernel.Backtrace.Labels.{Label}
use lq_os_lab.Kernel.Backtrace.Lines.{sys_user_backtrace-lines}
use lq_os_lab.Kernel.Syscall.{sys_user_base, sys_user_print, sys_user_exit, do_syscall}
use lq_os_lab.Kernel.Syscall.Results.{IsPlain, print-plain, exit_lines, exit-halts}
use lq_os_lab.Kernel.Process.{Image}
use lq_os_lab.Kernel.Process.Resume.{IsReady}
use lq_os_lab.Kernel.Trap.{saved_regs}
use lq_os_lab.User.{trap_ecall, do_user_call, printu, exit_user, print_backtrace}
use lq_os_lab.User.Calls.{with_args, in_kernel, Returned, do_user_call-Returned, do_user_call-halts}

-- Bytes, of which none ends a string.
abbrev pub IsText : List ℕ → Type 0
IsText [] = Unit
IsText (c ∷ t) = (c ≢ 0) × (c < 256) × IsText t

StandsAt-text :
    (p : CharPtr) (i : ℕ) (t : List ℕ)
    → IsText t
    → ((j : ℕ) → j < length t → p (i + j) ≡ get_or t j 0)
    → p (i + length t) ≡ 0
    → StandsAt p i t
StandsAt-text p i [] h inside end = let z : i ≡ i + 0 = omega arith in ap p z ∙ end
StandsAt-text p i (c ∷ t) h inside end =
    let z : i ≡ i + 0 = omega arith in
    let last : i + 1 + length t ≡ i + suc (length t) = omega arith in
    (
      ap p z ∙ inside 0 (omega arith),
      h.0,
      h.1,
      StandsAt-text p (i + 1) t h.2
          (λ j lt.
            let e : i + 1 + j ≡ i + suc j = omega arith in ap p e ∙ inside (suc j) (omega arith))
          (ap p last ∙ end),
    )

store_bytes-at :
    (m : Mem) (dest n i : ℕ) (b : ℕ → ℕ) → i < n → store_bytes m dest n b (dest + i) ≡ b i
unfolding store_bytes
store_bytes-at m dest n i b h =
    let e1 : leb dest (dest + i) ≡ true = ground arith in
    let e2 : ltb (dest + i) (dest + n) ≡ true = ground arith in
    let e3 : dest + i - dest ≡ i = omega arith in rw (e1, e2) (ap b e3)

call-print :
    (a1 a2 a3 a4 a5 a6 a7 : ℕ) (w : World)
    → do_syscall (sys_user_base + 0) a1 a2 a3 a4 a5 a6 a7 w ≡ sys_user_print a1 a2 w
unfolding do_syscall
call-print a1 a2 a3 a4 a5 a6 a7 w = refl

call-exit :
    (a1 a2 a3 a4 a5 a6 a7 : ℕ) (w : World)
    → do_syscall (sys_user_base + 1) a1 a2 a3 a4 a5 a6 a7 w ≡ sys_user_exit a1 w
unfolding do_syscall
call-exit a1 a2 a3 a4 a5 a6 a7 w = refl

call-backtrace :
    (a1 a2 a3 a4 a5 a6 a7 : ℕ) (w : World)
    → do_syscall (sys_user_base + 2) a1 a2 a3 a4 a5 a6 a7 w ≡ sys_user_backtrace a1 w
unfolding do_syscall
call-backtrace a1 a2 a3 a4 a5 a6 a7 w = refl

sent-text :
    (buf : ℕ) (t : List ℕ) (w : World) (o : Out)
    → Prints 256 (λ i. w.mem (buf + i)) t o
    → length t < 256
    → IsText t
    → chars (λ i. store_bytes w.mem buf 256 o.buf (buf + i)) ≡ some t
sent-text buf t w o p short h =
    chars-text _ t
      (StandsAt-text _ 0 t h
        (λ j lt.
          let z : buf + (0 + j) ≡ buf + j = omega arith in
          ap (store_bytes w.mem buf 256 o.buf) z
          ∙ store_bytes-at w.mem buf 256 j o.buf (omega arith)
          ∙ p.inside j lt (omega arith))
        (let z : buf + (0 + length t) ≡ buf + length t = omega arith in
          let e : length t ≡ min (length t) 255 = omega arith in
          ap (store_bytes w.mem buf 256 o.buf) z
          ∙ store_bytes-at w.mem buf 256 (length t) o.buf short
          ∙ ap o.buf e
          ∙ p.ends (omega arith)))
      (omega arith)

-- Memory is no part of what makes a process ready.
set_mem-IsReady :
    (img : Image) (m : Mem) (w : World) → IsReady img w → IsReady img (record w { mem = m })
set_mem-IsReady img m w r = record {
  frame = r.frame;
  vector = r.vector;
  handler = r.handler;
  stack = r.stack;
  running = r.running;
  in_user_mode = r.in_user_mode;
  spp_clear = r.spp_clear;
}

module _ (img : Image) (w : World) where
  -- `printu` with what the process finds afterwards: its memory has the text in the buffer.
  pub printu-Returned :
      (buf : ℕ) (fmt : List ℕ) (vl : List Arg) (t : List ℕ)
      → IsReady img w
      → render fmt false false vl ≡ some t
      → length t < 256
      → IsText t
      → IsPlain t
      → (v : World) × (m : Mem) × (printu img buf fmt vl w ≡ ok 0 v)
        × Returned img (record w { mem = m }) v
        × (v.host ≡ write w.stderr_kfd t ∷ w.host)
  unfolding printu trap_ecall
  printu-Returned buf fmt vl t r e short h plain =
      prints (vsnprintf (λ i. w.mem (buf + i)) 256 fmt vl)
        (rw e at (vsnprintf-render 256 (λ i. w.mem (buf + i)) fmt vl))
    where
      prints :
          (o : Option Out)
          → PrintsLike 256 (λ i. w.mem (buf + i)) (some t) o
          → (v : World) × (m : Mem) × (elim o [
            | none ↦ fault
            | some o ↦
                do_user_call img
                  (sys_user_base + 0)
                  buf
                  (written o)
                  0
                  0
                  0
                  0
                  0
                  (record w { mem = store_bytes w.mem buf 256 o.buf })
          ]
              ≡ ok 0 v)
            × Returned img (record w { mem = m }) v
            × (v.host ≡ write w.stderr_kfd t ∷ w.host)
      prints none p = absurd p
      prints (some o) p =
          let w' = record w { mem = store_bytes w.mem buf 256 o.buf } in
          let k = in_kernel img (with_args (sys_user_base + 0) buf (written o) 0 0 0 0 0 w') in
          let (v, returns, after, host) =
            do_user_call-Returned img (sys_user_base + 0) buf (written o) 0 0 0 0 0 w' 0
              (logged t k) (set_mem-IsReady img w'.mem w r)
              (call-print buf (written o) 0 0 0 0 0 k
                ∙ print-plain buf (written o) t k (sent-text buf t w o p short h) plain short) in
          (v, w'.mem, returns, after, host)

  -- A text shorter than 256 bytes with no `%` in it reaches the console, and `printu` returns 0 to a
  -- process that can make the next call.
  pub printu-line :
      (buf : ℕ) (fmt : List ℕ) (vl : List Arg) (t : List ℕ)
      → IsReady img w
      → render fmt false false vl ≡ some t
      → length t < 256
      → IsText t
      → IsPlain t
      → (v : World) × (printu img buf fmt vl w ≡ ok 0 v)
        × IsReady img v
        × (v.host ≡ write w.stderr_kfd t ∷ w.host)
  printu-line buf fmt vl t r e short h plain =
      let (v, m, returns, after, host) = printu-Returned buf fmt vl t r e short h plain in
      (v, returns, after.ready, host)

  -- The lines of a backtrace reach the console, innermost frame first, and `print_backtrace` returns
  -- their number.
  pub print_backtrace-lines :
      (depth : ℕ) (ls : List Label)
      → IsReady img w
      → w.regs.sp + 16 < w.regs.s0
      → w.regs.s0 < user_stack
      → w.regs.s0 < load64 w.mem (w.regs.s0 - 8)
      → Chain w.mem w.user_app w.regs.sp (load64 w.mem (w.regs.s0 - 8)) ls
      → (v : World) × (print_backtrace img depth w ≡ ok (length (lines depth ls) % u32_mod) v)
        × Returned img w v
        × (v.host ≡ (log_all (lines depth ls) w).host)
  unfolding print_backtrace trap_ecall saved_regs
  print_backtrace-lines depth ls r below top up c =
      let k = in_kernel img (with_args (sys_user_base + 2) depth 0 0 0 0 0 0 w) in
      let (v, returns, after, host) =
        do_user_call-Returned img (sys_user_base + 2) depth 0 0 0 0 0 0 w (length (lines depth ls))
          (log_all (lines depth ls) k) r
          (call-backtrace depth 0 0 0 0 0 0 k
            ∙ sys_user_backtrace-lines depth ls k r.running below top up
                (Chain-frame w.user_app k.user_app.trapframe w.mem w.regs.sp _ ls c)) in
      (v, returns, after, host ∙ log_all-host (lines depth ls) k w refl refl)

  -- `exit` does not return: it prints its two lines, the host is asked to stop with the code, and
  -- the machine halts.
  pub exit_user-halts :
      (code : ℕ)
      → IsReady img w
      → (u : World) × (exit_user img code w ≡ halted u)
        × (u.host ≡ exit (int_arg code) ∷ (exit_lines code w).host)
  unfolding exit_user trap_ecall
  exit_user-halts code r =
      let k = in_kernel img (with_args (sys_user_base + 1) code 0 0 0 0 0 0 w) in
      (
        record k { host = exit (int_arg code) ∷ (exit_lines code k).host },
        do_user_call-halts img (sys_user_base + 1) code 0 0 0 0 0 0 w _ r
            (call-exit code 0 0 0 0 0 0 k ∙ exit-halts code k),
        refl,
      )

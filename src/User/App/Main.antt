-- ===== src/User/App/Main.antt =====
-- What the application prints: a line for each of its functions.
use mathlib.Core.Path.{subst}
use lq_os_lab.Base.{
  ℕ, ◌<◌, ◌≤◌, ◌≡◌, refl, sym, ap, ◌∙◌, arith, inl, List, [], ◌∷◌, ◌++◌, text, false, some,
}
use lq_os_lab.Hart.{user_stack}
use lq_os_lab.World.{World, write, exit, halted, Cmd, and_then}
use lq_os_lab.World.Runs.{and_then-ok}
use lq_os_lab.Util.Print.{int_arg}
use lq_os_lab.Util.Print.Spec.{render, step_piece}
use lq_os_lab.Kernel.Backtrace.Chain.{lines, log_all}
use lq_os_lab.Kernel.Backtrace.Frames.{log_all-host}
use lq_os_lab.Kernel.Backtrace.Labels.{stop}
use lq_os_lab.Spike.Utils.Console.{line, logged}
use lq_os_lab.Spike.Utils.Messages.{int_text}
use lq_os_lab.Kernel.Process.{Image}
use lq_os_lab.Kernel.Process.Resume.{IsReady}
use lq_os_lab.Kernel.Syscall.Results.{exit_lines}
use lq_os_lab.User.{printu, exit_user}
use lq_os_lab.User.Library.{printu-Returned, exit_user-halts}
use lq_os_lab.User.App.{Convention, Sites, call, f1, main}
use lq_os_lab.User.App.Frames.{IsConvention}
use lq_os_lab.User.App.Nested.{call-Prints}
use lq_os_lab.User.App.Functions.{IsNamed, IsNamed-frame, from_f8_to_f1, f1-Works}

-- What the backtrace prints, innermost function first.
abbrev pub app_lines : List (List ℕ)
app_lines =
    text "f8\n"
    ∷ text "f7\n"
    ∷ text "f6\n"
    ∷ text "f5\n"
    ∷ text "f4\n"
    ∷ text "f3\n"
    ∷ text "f2\n"
    ∷ text "f1\n"
    ∷ []

abbrev pub banner : List ℕ
banner = text "back trace the user app in the following:\n"

banner-rendered : render banner false false [] ≡ some banner
unfolding render step_piece
banner-rendered = refl

app-lines : lines 8 (from_f8_to_f1 (stop ∷ [])) ≡ app_lines
unfolding lines
app-lines = refl

log_all-console : (ts : List (List ℕ)) (w : World) → (log_all ts w).stderr_kfd ≡ w.stderr_kfd
log_all-console [] w = refl
log_all-console (t ∷ ts) w = log_all-console ts (logged (line t) w)

exit_lines-host :
    (code : ℕ) (v w : World)
    → v.host ≡ w.host
    → v.stderr_kfd ≡ w.stderr_kfd
    → (exit_lines code v).host ≡ (exit_lines code w).host
exit_lines-host code v w h k = λ i.
    write (k i) (text "System is shutting down with exit code " ++ (int_text code ++ text ".\n"))
    ∷ write (k i) (text "User exit with code:" ++ (int_text code ++ text ".\n"))
    ∷ h i

module _ (img : Image) (c : Convention) (s : Sites) (conv : IsConvention img c) where
  -- The calls behind `printu`.
  abbrev calls : Cmd ℕ
  calls v = and_then (call c s.in_main (f1 img c s) v) λ _ x. exit_user img 0 x

  calls-print :
      (v : World)
      → IsNamed v.user_app s
      → IsReady img v
      → 2560 ≤ v.regs.sp
      → v.regs.sp < user_stack
      → (u : World) × (calls v ≡ halted u)
        × (u.host ≡ exit (int_arg 0) ∷ (exit_lines 0 (log_all app_lines v)).host)
  calls-print v named r room below =
      let (x, e, ready, host, console) =
        call-Prints conv 9 s.in_main stop [] _ (f1 img c s) v r room below named.main (inl refl)
          (f1-Works conv s v.user_app named (stop ∷ [])) in
      let (u, e', host') = exit_user-halts img x 0 ready in
      let printed : x.host ≡ (log_all app_lines v).host =
        host ∙ ap (λ ts. (log_all ts v).host) app-lines in
      (
        u,
        and_then-ok (call c s.in_main (f1 img c s) v) (λ _ x. exit_user img 0 x) tt x e ∙ e',
        host'
            ∙ ap (λ h. exit (int_arg 0) ∷ h)
                (exit_lines-host 0 x (log_all app_lines v) printed
                  (console ∙ sym (log_all-console app_lines v))),
      )

  same-IsNamed :
      (v w : World)
      → v.user_app ≡ record (w.user_app) { trapframe = v.user_app.trapframe }
      → IsNamed w.user_app s
      → IsNamed v.user_app s
  same-IsNamed v w same named =
      subst (λ p. IsNamed p s) (sym same) (IsNamed-frame w.user_app v.user_app.trapframe s named)

  -- From a ready process with room for its frames on the user stack, under a calling convention that
  -- saves return addresses and frame pointers, and with symbols that name the functions, the
  -- application prints its first line and then `f8` to `f1`, each on a line, and exits with code 0.
  pub main-prints :
      (buf : ℕ) (w : World)
      → IsNamed w.user_app s
      → IsReady img w
      → 2560 ≤ w.regs.sp
      → w.regs.sp < user_stack
      → (u : World) × (main img c s buf w ≡ halted u)
        × (u.host ≡ exit (int_arg 0) ∷ (exit_lines 0 (log_all app_lines (logged banner w))).host)
  unfolding main
  main-prints buf w named r room below =
      let (v, m, e, after, host) =
        printu-Returned img w buf banner [] banner r banner-rendered (omega arith) (ground arith)
          (ground arith) in
      let sp = after.same_frames.0 in
      let (u, e', host') =
        calls-print v (same-IsNamed v w after.same_process named) after.ready
          (omega (arith, sp, room)) (omega (arith, sp, below)) in
      (
        u,
        and_then-ok (printu img buf banner [] w) (λ _ v. calls v) 0 v e ∙ e',
        host'
            ∙ ap (λ h. exit (int_arg 0) ∷ h)
                (exit_lines-host 0 (log_all app_lines v) (log_all app_lines (logged banner w))
                  (log_all-host app_lines v (logged banner w) host after.same_console)
                  (log_all-console app_lines v
                    ∙ after.same_console
                    ∙ sym (log_all-console app_lines (logged banner w)))),
      )

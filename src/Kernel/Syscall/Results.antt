-- ===== src/Kernel/Syscall/Results.antt =====
-- What each system call prints, and how it ends.
use lq_os_lab.Base.{
  ℕ, ◌+◌, ◌<◌, ◌≡◌, ◌≢◌, refl, ap, ◌∙◌, false, none, some, List, [], ◌∷◌, ◌++◌, arith, ◌==◌, text,
  length, length-append, lt→ltb, ◌≤◌,
}
use lq_os_lab.Util.Print.{num, Arg, int_arg}
use lq_os_lab.Util.Print.Spec.{render, step_piece, directive_piece, decimal_piece}
use lq_os_lab.Util.Strings.{chars}
use lq_os_lab.World.{World, exit, ok, halted, fault}
use lq_os_lab.Spike.Utils.{sprint, shutdown}
use lq_os_lab.Spike.Utils.Console.{logged, line, sprint-line, sprint-fault}
use lq_os_lab.Spike.Utils.Messages.{int_text, render-exit, render-shutdown, length-int_text}
use lq_os_lab.Kernel.Syscall.{sys_user_print, sys_user_exit}

short-line :
    (t : List ℕ) (fmt : List ℕ) (vl : List Arg) (w : World)
    → render fmt false false vl ≡ some t
    → length t < 256
    → sprint fmt vl w ≡ ok tt (logged t w)
short-line t fmt vl w e h =
    sprint-line fmt vl t w e (omega arith) ∙ ap (λ u. ok tt (logged u w)) whole
  where
    whole : line t ≡ t
    whole = unfold line in rw (lt→ltb (length t) 256 h)

-- The two lines that `exit` prints.
abbrev pub exit_lines : ℕ → World → World
exit_lines code w =
    logged (text "System is shutting down with exit code " ++ (int_text code ++ text ".\n"))
      (logged (text "User exit with code:" ++ (int_text code ++ text ".\n")) w)

-- `exit` never returns: it reports the low 32 bits of the code as an `int` on two lines, asks the
-- host to stop with that code, and stops.
pub exit-halts :
    (code : ℕ) (w : World)
    → sys_user_exit code w
      ≡ halted (record w { host = exit (int_arg code) ∷ (exit_lines code w).host })
unfolding sys_user_exit shutdown
exit-halts code w =
    let b : length (int_text code ++ text ".\n") ≤ 24 =
      omega (arith, length-append (int_text code) (text ".\n"), length-int_text code) in
    let t = text "User exit with code:" ++ (int_text code ++ text ".\n") in
    let u = text "System is shutting down with exit code " ++ (int_text code ++ text ".\n") in
    let vl = num code ∷ [] in
    let first =
      short-line t (text "User exit with code:%d.\n") vl w (render-exit code) (omega arith) in
    let second =
      short-line u (text "System is shutting down with exit code %d.\n") vl (logged t w)
        (render-shutdown code) (omega arith) in
    rw (first, second)

-- No byte of the text starts a conversion.
abbrev pub IsPlain : List ℕ → Type 0
IsPlain [] = Unit
IsPlain (c ∷ s) = (c ≢ b'%') × IsPlain s

step-plain :
    (c : ℕ)
    → c ≢ b'%'
    → step_piece c false false []
      ≡ some (record { chars = c ∷ []; format = false; longarg = false; args = [] })
unfolding step_piece
step-plain c h = let e : (c == b'%') ≡ false = ground arith in rw e

render-plain : (s : List ℕ) → IsPlain s → render s false false [] ≡ some s
unfolding render
render-plain [] h = refl
render-plain (c ∷ s) h = rw (step-plain c h.0, render) (rw (render-plain s h.1))

render-conversion :
    (s rest : List ℕ) → IsPlain s → render (s ++ b'%' ∷ b'd' ∷ rest) false false [] ≡ none
unfolding render
render-conversion [] rest h = unfold step_piece directive_piece decimal_piece in refl
render-conversion (c ∷ s) rest h = rw (step-plain c h.0, render) (rw (render-conversion s rest h.1))

-- Text with no `%` reaches the console unchanged, whatever length `n` was passed, as long as it
-- is shorter than the kernel's buffer of 256 bytes.
pub print-plain :
    (buf n : ℕ) (s : List ℕ) (w : World)
    → chars (λ i. w.mem (buf + i)) ≡ some s
    → IsPlain s
    → length s < 256
    → sys_user_print buf n w ≡ ok 0 (logged s w)
unfolding sys_user_print
print-plain buf n s w e plain short = rw (e, short-line s s [] w (render-plain s plain) short)

-- The user's text is used as a format: a `%d` in it makes the kernel read an argument that was
-- never passed.
pub print-conversion :
    (buf n : ℕ) (s rest : List ℕ) (w : World)
    → chars (λ i. w.mem (buf + i)) ≡ some (s ++ b'%' ∷ b'd' ∷ rest)
    → IsPlain s
    → sys_user_print buf n w ≡ fault
unfolding sys_user_print
print-conversion buf n s rest w e plain =
    rw (e, sprint-fault (s ++ b'%' ∷ b'd' ∷ rest) [] w (render-conversion s rest plain))

-- ===== src/Tests/Users.antt =====
-- Calls of the user library by the sample process.
use lq_os_lab.Base.{◌%◌, ◌≡◌, refl, arith, false, some, [], ◌∷◌, length, text}
use lq_os_lab.Base.Memory.{u32_mod, load64, store64}
use lq_os_lab.Util.Print.{str, int_arg}
use lq_os_lab.Util.Print.Spec.{render, step_piece, directive_piece, string_piece}
use lq_os_lab.World.{World, write, exit, ok, halted}
use lq_os_lab.Kernel.Backtrace.Chain.{lines, log_all}
use lq_os_lab.Kernel.Backtrace.Frames.{Chain-frame}
use lq_os_lab.Kernel.Syscall.Results.{exit_lines}
use lq_os_lab.Kernel.Process.{prepare, return_to_user, sret}
use lq_os_lab.Kernel.Process.Resume.{IsReady, resumed, resumed-IsReady}
use lq_os_lab.User.{printu, exit_user, print_backtrace}
use lq_os_lab.User.Calls.{Returned}
use lq_os_lab.User.Library.{printu-line, print_backtrace-lines, exit_user-halts}
use lq_os_lab.Tests.Samples.{image, user_world}
use lq_os_lab.Tests.Stacks.{calling, stack, stack_world, labels, two_frames}

-- The sample process in user mode.
abbrev user : World
user = resumed image user_world

hi_text : render (text "%s!") false false (str (text "hi") ∷ []) ≡ some (text "hi!")
unfolding render step_piece directive_piece string_piece
hi_text = refl

printu-line_example :
    (v : World) × (printu image 0x81080000 (text "%s!") (str (text "hi") ∷ []) user ≡ ok 0 v)
    × IsReady image v
    × (v.host ≡ write user.stderr_kfd (text "hi!") ∷ user.host)
printu-line_example =
    printu-line image user 0x81080000 (text "%s!") (str (text "hi") ∷ []) (text "hi!")
      (resumed-IsReady image user_world) hi_text (omega arith)
      (
        (λ e. absurd (omega arith)),
        omega arith,
        ((λ e. absurd (omega arith)), omega arith, ((λ e. absurd (omega arith)), omega arith, tt)),
      )
      (
        (λ e. absurd (omega arith)),
        ((λ e. absurd (omega arith)), ((λ e. absurd (omega arith)), tt)),
      )

abbrev walking : World
walking = resumed image stack_world

print_backtrace-lines_example :
    (v : World) × (print_backtrace image 8 walking ≡ ok (length (lines 8 labels) % u32_mod) v)
    × Returned image walking v
    × (v.host ≡ (log_all (lines 8 labels) walking).host)
unfolding return_to_user prepare sret load64 store64
print_backtrace-lines_example =
    print_backtrace-lines image walking 8 labels (resumed-IsReady image stack_world) (omega arith)
      (omega arith) (omega arith)
      (Chain-frame calling walking.user_app.trapframe stack 0x810f0000 0x810f0200 labels two_frames)

exit_user-halts_example :
    (u : World) × (exit_user image 0 user ≡ halted u)
    × (u.host ≡ exit (int_arg 0) ∷ (exit_lines 0 user).host)
exit_user-halts_example = exit_user-halts image user 0 (resumed-IsReady image user_world)

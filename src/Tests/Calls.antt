-- ===== src/Tests/Calls.antt =====
-- System calls of the sample process.
use lq_os_lab.Base.{◌+◌, ◌≡◌, refl, some, [], ◌∷◌, ◌++◌, text, get_or}
use lq_os_lab.Util.Strings.{chars, chars_from}
use lq_os_lab.World.{World, fault}
use lq_os_lab.Kernel.Backtrace.{find_symbol_name}
use lq_os_lab.Kernel.Backtrace.Symbols.{Found, find_symbol_name-Found}
use lq_os_lab.Kernel.Syscall.{sys_user_print, do_syscall}
use lq_os_lab.Kernel.Syscall.Quiet.{QuietRun, do_syscall-Quiet}
use lq_os_lab.Kernel.Syscall.Results.{print-conversion}
use lq_os_lab.Tests.Samples.{one_function, user_world}

do_syscall-Quiet_example : QuietRun user_world (do_syscall 66 3 0 0 0 0 0 0 user_world)
do_syscall-Quiet_example = do_syscall-Quiet 66 3 0 0 0 0 0 0 user_world

find_symbol_name-Found_example :
    Found one_function 0x81000010 0 1 (find_symbol_name one_function 0x81000010)
find_symbol_name-Found_example = find_symbol_name-Found one_function 0x81000010

-- The user's text "%d".
abbrev conversion_world : World
conversion_world = record user_world { mem = λ a. get_or (text "%d") a 0 }

conversion_at_zero : chars (λ i. conversion_world.mem (0 + i)) ≡ some ([] ++ b'%' ∷ b'd' ∷ [])
unfolding chars chars_from
conversion_at_zero = refl

print-conversion_example : sys_user_print 0 2 conversion_world ≡ fault
print-conversion_example = print-conversion 0 2 [] [] conversion_world conversion_at_zero tt

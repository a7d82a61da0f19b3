-- ===== src/Spike/Utils.antt =====
-- Console output, shutdown and panic of spike_interface/spike_utils.c.
pub mod Console
pub mod Messages
use lq_os_lab.Base.{
  ℕ, zero, suc, ◌+◌, ◌-◌, none, some, List, [], ◌∷◌, ltb, ◌==◌, if◌then◌else◌, text, ◌++◌,
}
use lq_os_lab.Base.Memory.{u64_mod}
use lq_os_lab.Util.Print.{Arg, num, str, Out, int_arg, vsnprintf}
use lq_os_lab.World.{write, exit, ok, halted, fault, diverges, Cmd, ◌>>◌}

-- The bytes of a buffer from index `i` on.
unfoldable pub bytes_from : ℕ → ℕ → (ℕ → ℕ) → List ℕ
bytes_from zero i buf = []
bytes_from (suc k) i buf = buf i ∷ bytes_from k (i + 1) buf

-- `res < sizeof(out) ? res : sizeof(out)`; the `int` is compared as a `size_t`.
unfoldable pub written : Out → ℕ
written o = if ltb (int_arg o.pos) 256 then int_arg o.pos else 256

-- `spike_file_write(stderr, ...)`, of which the result is not used.
unfoldable pub host_write : List ℕ → Cmd (Unit {0})
host_write bytes w = ok tt (record w { host = write w.stderr_kfd bytes ∷ w.host })

unfoldable pub vprintk : List ℕ → List Arg → Cmd (Unit {0})
vprintk s vl w = elim (vsnprintf w.scratch 256 s vl) [
  | none ↦ fault
  | some o ↦ host_write (bytes_from (written o) 0 o.buf) w
]

unfoldable pub sprint : List ℕ → List Arg → Cmd (Unit {0})
sprint s vl = vprintk s vl

unfoldable pub printk : List ℕ → List Arg → Cmd (Unit {0})
printk s vl = vprintk s vl

-- `frontend_syscall(HTIFSYS_exit, code, ...)`, then `while (1);`. `code` is an `int`, given as
-- the 64 bits that it is extended to.
unfoldable pub shutdown : {A : Type 0} → ℕ → Cmd A
shutdown code =
    (sprint (text "System is shutting down with exit code %d.\n") (num code ∷ []))
    >> (λ w. halted (record w { host = exit (int_arg code) ∷ w.host }))

-- `do_panic` hands its own `va_list` to `sprint` as the one variadic argument.
unfoldable pub do_panic : {A : Type 0} → List ℕ → List Arg → Cmd A
do_panic s vl = (λ w. sprint s (num w.va_pointer ∷ []) w) >> shutdown (u64_mod - 1)

-- The macro `panic` appends a newline to its format.
unfoldable pub panic : {A : Type 0} → List ℕ → List Arg → Cmd A
panic s vl = do_panic (s ++ text "\n") vl

-- `poweroff`: `htif_poweroff` loops for ever, and without HTIF the failing assertion calls
-- `poweroff` again.
unfoldable pub poweroff : {A : Type 0} → Cmd A
poweroff w = if w.htif == 0 then diverges else (sprint (text "Power off\r\n") [] >> halted) w

-- A failed `assert`: `die` with the file, the line and the condition.
unfoldable pub assert_fail : {A : Type 0} → List ℕ → ℕ → List ℕ → Cmd A
assert_fail file line cond =
    sprint (text "%s:%d: assertion failed: %s\n") (str file ∷ num line ∷ str cond ∷ []) >> poweroff

-- `ra` is the register's value, the caller's return address.
unfoldable pub kassert_fail : {A : Type 0} → List ℕ → Cmd A
kassert_fail s w = do_panic (text "assertion failed @ %p: %s\n") (num w.regs.ra ∷ str s ∷ []) w

-- ===== src/Spike/Htif/Console.antt =====
-- Output through the host interface without a host file, of spike_interface/spike_utils.c: nothing in
-- the kernel calls it. `htif` is the flag of that name, `n` the rounds of polling for a character.
use lq_os_lab.Base.{ℕ, zero, suc, ◌+◌, none, some, Option, List, ◌==◌, if◌then◌else◌}
use lq_os_lab.Util.Strings.{CharPtr, max_string}
use lq_os_lab.Util.Print.{Arg, vsnprintf}
use lq_os_lab.Spike.Htif.{Device, Host, Polled, ready, waits, after, htif_console_putchar}

module _ (host : Host) (htif n : ℕ) where
  unfoldable pub mcall_console_putchar : ℕ → Device → Polled (Unit {0})
  mcall_console_putchar ch d = if htif == 0 then ready tt d else htif_console_putchar host n ch d

  -- From offset `i`; a text that does not end is waited on for ever.
  unfoldable pub putstring_loop : ℕ → CharPtr → ℕ → Device → Polled (Unit {0})
  putstring_loop zero s i d = waits
  putstring_loop (suc f) s i d =
      let rest = putstring_loop f s (i + 1) in
      let next = after (mcall_console_putchar (s i) d) (λ _. rest) in
      if s i == 0 then ready tt d else next

  unfoldable pub putstring : CharPtr → Device → Polled (Unit {0})
  putstring s = putstring_loop max_string s 0

  -- `scratch` is what the buffer on the stack held; `none` is undefined behaviour.
  unfoldable pub vprintm : (ℕ → ℕ) → List ℕ → List Arg → Device → Option (Polled (Unit {0}))
  vprintm scratch s vl d = elim (vsnprintf scratch 256 s vl) [
    | none ↦ none
    | some o ↦ some (putstring o.buf d)
  ]

-- ===== src/Spike/Htif.antt =====
-- The host-target interface, spike_interface/spike_htif.c and .h, with the spinlock of
-- spike_interface/atomic.h and `frontend_syscall` of spike_interface/spike_utils.c. The host may
-- act before each read of the volatile `tohost` and `fromhost`: it is a function of the time,
-- counted in reads, and of the two registers. A loop that polls takes the number of its rounds.
pub mod Packing
pub mod Answers
pub mod Console
use lq_os_lab.Base.{
  ℕ, zero, suc, ◌+◌, ◌-◌, ◌*◌, ◌/◌, ◌%◌, ◌^◌, bit_or, Bool, true, false, not, ◌&&◌, ltb, ◌==◌,
  if◌then◌else◌,
}
use lq_os_lab.Base.Memory.{u64_mod, u32_mod}

-- `TOHOST_CMD` for 64 bits, and the parts of what the host answers.
unfoldable pub tohost_cmd : ℕ → ℕ → ℕ → ℕ
tohost_cmd dev cmd payload =
    bit_or (bit_or (dev * 2 ^ 56 % u64_mod) (cmd * 2 ^ 48 % u64_mod)) payload

unfoldable pub fromhost_dev : ℕ → ℕ
fromhost_dev v = v / 2 ^ 56

unfoldable pub fromhost_cmd : ℕ → ℕ
fromhost_cmd v = v * 2 ^ 8 % u64_mod / 2 ^ 56

unfoldable pub fromhost_data : ℕ → ℕ
fromhost_data v = v * 2 ^ 16 % u64_mod / 2 ^ 16

-- The registers and `htif_console_buf`, an `int` by its 32 bits; `time` counts the reads.
pub record Device : Type 0 where
  pub tohost : ℕ
  pub fromhost : ℕ
  pub htif_console_buf : ℕ
  pub htif_lock : ℕ
  pub time : ℕ

-- At a time, with `tohost` and `fromhost` as they are: what they become.
abbrev pub Host : Type 0
Host = ℕ → ℕ → ℕ → ℕ × ℕ

-- A return; a failed `assert`, which stops the machine; or more rounds of polling than given.
pub data Polled (A : Type 0) : Type 0 where
  ready : A → Device → Polled A
  asserts : Polled A
  waits : Polled A

abbrev pub after : {A B : Type 0} → Polled A → (A → Device → Polled B) → Polled B
after (ready a d) k = k a d
after asserts k = asserts
after waits k = waits

-- -1 as an `int`.
abbrev pub int_minus_one : ℕ
int_minus_one = u32_mod - 1

-- The value from before, and the lock taken.
unfoldable pub spinlock_trylock : Device → ℕ × Device
spinlock_trylock d = (d.htif_lock, record d { htif_lock = int_minus_one })

-- With one hart nobody else gives a held lock free, so that waiting for it never ends.
unfoldable pub spinlock_lock : Device → Polled (Unit {0})
unfolding spinlock_trylock
spinlock_lock d = if d.htif_lock == 0 then ready tt (spinlock_trylock d).1 else waits

unfoldable pub spinlock_unlock : Device → Device
spinlock_unlock d = record d { htif_lock = 0 }

module _ (host : Host) where
  -- The host's turn before a read.
  abbrev pub sync : Device → Device
  sync d =
      let r = host d.time d.tohost d.fromhost in
      record d { tohost = r.0; fromhost = r.1; time = d.time + 1 }

  unfoldable pub check_fromhost : Device → Polled (Unit {0})
  check_fromhost d =
      let v = sync d in
      let fh = v.fromhost in
      let taken = record v { fromhost = 0 } in
      if fh == 0
      then ready tt v
      else if not (fromhost_dev fh == 1)
      then asserts
      else if fromhost_cmd fh == 0
      then ready tt (record taken { htif_console_buf = 1 + fromhost_data fh % 256 })
      else if fromhost_cmd fh == 1
      then ready tt taken
      else asserts

  -- `while (tohost) __check_fromhost();` and the write.
  unfoldable pub set_tohost : ℕ → ℕ → ℕ → ℕ → Device → Polled (Unit {0})
  set_tohost zero dev cmd payload d = waits
  set_tohost (suc n) dev cmd payload d =
      let v = sync d in
      let again = after (check_fromhost v) (λ _. set_tohost n dev cmd payload) in
      if v.tohost == 0 then ready tt (record v { tohost = tohost_cmd dev cmd payload }) else again

  -- The loop that waits for the answer.
  unfoldable pub await_fromhost : ℕ → ℕ → ℕ → Device → Polled (Unit {0})
  await_fromhost zero dev cmd d = waits
  await_fromhost (suc n) dev cmd d =
      let v = sync d in
      let fh = v.fromhost in
      let again = await_fromhost n dev cmd v in
      let other = after (check_fromhost v) (λ _. await_fromhost n dev cmd) in
      if fh == 0
      then again
      else if (fromhost_dev fh == dev) && (fromhost_cmd fh == cmd)
      then ready tt (record v { fromhost = 0 })
      else other

  unfoldable pub do_tohost_fromhost : ℕ → ℕ → ℕ → ℕ → Device → Polled (Unit {0})
  do_tohost_fromhost n dev cmd payload d = after (spinlock_lock d) λ _ locked.
      after (set_tohost n dev cmd payload locked)
        λ _ sent. after (await_fromhost n dev cmd sent) λ _ v. ready tt (spinlock_unlock v)

  unfoldable pub htif_syscall : ℕ → ℕ → Device → Polled (Unit {0})
  htif_syscall n arg = do_tohost_fromhost n 0 0 arg

  unfoldable pub htif_console_putchar : ℕ → ℕ → Device → Polled (Unit {0})
  htif_console_putchar n ch d =
      after (spinlock_lock d)
        λ _ locked. after (set_tohost n 1 1 ch locked) λ _ v. ready tt (spinlock_unlock v)

  -- The character, or -1 where the buffer holds none, as the 32 bits of an `int`.
  unfoldable pub htif_console_getchar : ℕ → Device → Polled ℕ
  htif_console_getchar n d = after (spinlock_lock d) λ _ locked.
      after (check_fromhost locked) λ _ v.
        let ch = v.htif_console_buf in
        let result = (ch + u32_mod - 1) % u32_mod in
        after
          (if ltb ch (2 ^ 31)
            then set_tohost n 1 0 0 (record v { htif_console_buf = int_minus_one })
            else ready tt v)
          λ _ u. ready result (spinlock_unlock u)

-- `while (1) { fromhost = 0; tohost = 1; }`, which nothing ends but the rounds given.
unfoldable pub htif_poweroff : ℕ → Device → Polled ⊥
htif_poweroff zero d = waits
htif_poweroff (suc n) d = htif_poweroff n (record d { fromhost = 0; tohost = 1 })

-- `frontend_syscall`: the call's number and arguments in `magic_mem`, at the address `magic`. The
-- host puts its result in the first word.
pub record Frontend : Type 0 where
  pub lock : ℕ
  pub magic_mem : ℕ → ℕ
  pub device : Device

-- What the host makes of the eight words.
abbrev pub Service : Type 0
Service = (ℕ → ℕ) → ℕ

abbrev pub magic_words : ℕ → ℕ → ℕ → ℕ → ℕ → ℕ → ℕ → ℕ → ℕ → ℕ
magic_words n a0 a1 a2 a3 a4 a5 a6 i =
    if i == 0
    then n
    else if i == 1
    then a0
    else if i == 2
    then a1
    else if i == 3
    then a2
    else if i == 4
    then a3
    else if i == 5
    then a4
    else if i == 6
    then a5
    else a6

pub data Called : Type 0 where
  returned : ℕ → Frontend → Called
  stopped : Called
  polling : Called

abbrev pub after_call : Polled (Unit {0}) → (Device → Called) → Called
after_call (ready a d) k = k d
after_call asserts k = stopped
after_call waits k = polling

unfoldable pub frontend_syscall :
    Host → Service → ℕ → ℕ → ℕ → ℕ → ℕ → ℕ → ℕ → ℕ → ℕ → ℕ → Frontend → Called
frontend_syscall host service polls magic n a0 a1 a2 a3 a4 a5 a6 s =
    let words = magic_words n a0 a1 a2 a3 a4 a5 a6 in
    let ret = service words in
    if s.lock == 0
    then (after_call (htif_syscall host polls magic s.device) λ d.
        returned ret
          (record { lock = 0; magic_mem = λ i. if i == 0 then ret else words i; device = d }))
    else polling

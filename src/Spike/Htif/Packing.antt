-- ===== src/Spike/Htif/Packing.antt =====
-- The parts of a command word.
use lq_os_lab.Base.{ℕ, ◌+◌, ◌*◌, ◌%◌, ◌^◌, ◌<◌, ◌≡◌, bit_or, arith}
use lq_os_lab.Base.Memory.{u64_mod}
use lq_os_lab.Base.Bits.{bit_or-above}
use lq_os_lab.Spike.Htif.{tohost_cmd, fromhost_dev, fromhost_cmd, fromhost_data}

-- The command word is the sum of its parts, each in its own bits.
pub tohost_cmd-sum :
    (dev cmd payload : ℕ)
    → dev < 256
    → cmd < 256
    → payload < 2 ^ 48
    → tohost_cmd dev cmd payload ≡ dev * 2 ^ 56 + cmd * 2 ^ 48 + payload
unfolding tohost_cmd
tohost_cmd-sum dev cmd payload hd hc hp =
    let e1 : dev * 2 ^ 56 % u64_mod ≡ dev * 2 ^ 56 = omega arith in
    let e2 : cmd * 2 ^ 48 % u64_mod ≡ cmd * 2 ^ 48 = omega arith in
    let high : bit_or (dev * 2 ^ 56) (cmd * 2 ^ 48) ≡ (dev * 256 + cmd) * 2 ^ 48 =
      omega (arith, bit_or-above 56 dev (cmd * 2 ^ 48) (omega arith)) in
    rw (e1, e2, high) (omega (arith, bit_or-above 48 (dev * 256 + cmd) payload hp))

-- The host's macros take from a command word what `TOHOST_CMD` put there, for a device and a
-- command of one byte and a payload of 48 bits.
pub tohost_cmd-parts :
    (dev cmd payload : ℕ)
    → dev < 256
    → cmd < 256
    → payload < 2 ^ 48
    → (fromhost_dev (tohost_cmd dev cmd payload) ≡ dev)
      × (fromhost_cmd (tohost_cmd dev cmd payload) ≡ cmd)
      × (fromhost_data (tohost_cmd dev cmd payload) ≡ payload)
unfolding fromhost_dev fromhost_cmd fromhost_data
tohost_cmd-parts dev cmd payload hd hc hp =
    rw (tohost_cmd-sum dev cmd payload hd hc hp) (omega arith, omega arith, omega arith)

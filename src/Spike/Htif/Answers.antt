-- ===== src/Spike/Htif/Answers.antt =====
-- With a host that takes commands and answers them, the calls on the interface return.
use lq_os_lab.Base.{
  ℕ, zero, suc, ◌+◌, ◌^◌, ◌<◌, ◌≡◌, ◌≢◌, ◌⊎◌, inl, inr, refl, true, false, ◌&&◌, arith, ◌==◌,
  if◌then◌else◌, ◌∙◌,
}
use lq_os_lab.Spike.Htif.{
  fromhost_dev, fromhost_cmd, tohost_cmd, Device, Host, ready, int_minus_one, spinlock_lock,
  spinlock_unlock, set_tohost, await_fromhost, do_tohost_fromhost, htif_syscall, Frontend, Service,
  magic_words, returned, frontend_syscall,
}
use lq_os_lab.Spike.Htif.Packing.{tohost_cmd-parts, tohost_cmd-sum}

-- The host's side of the protocol: it sends nothing unasked; a command stays until the host takes
-- it and answers it at once; it does so in the end; and an answer carries the device and the
-- command.
pub record Serves (host : Host) (reply : ℕ → ℕ) : Type 0 where
  pub idle : (t : ℕ) → host t 0 0 ≡ (0, 0)
  pub keeps : (t c : ℕ) → c ≢ 0 → (host t c 0 ≡ (c, 0)) ⊎ (host t c 0 ≡ (0, reply c))
  pub soon : (t c : ℕ) → c ≢ 0 → (k : ℕ) × (host (t + k) c 0 ≡ (0, reply c))
  pub answers : (c : ℕ) → c ≢ 0 → reply c ≢ 0
  pub same_dev : (c : ℕ) → c ≢ 0 → fromhost_dev (reply c) ≡ fromhost_dev c
  pub same_cmd : (c : ℕ) → c ≢ 0 → fromhost_cmd (reply c) ≡ fromhost_cmd c

-- The device once the command is answered, at some time.
abbrev pub answered : Device → ℕ → Device
answered d t = record d { tohost = 0; fromhost = 0; time = t }

module _ (host : Host) (reply : ℕ → ℕ) (serves : Serves host reply) (c : ℕ) (sent : c ≢ 0) where
  await-now :
      (n : ℕ) (d : Device)
      → d.tohost ≡ c
      → d.fromhost ≡ 0
      → host d.time c 0 ≡ (0, reply c)
      → await_fromhost host (suc n) (fromhost_dev c) (fromhost_cmd c) d
        ≡ ready tt (answered d (d.time + 1))
  unfolding await_fromhost
  await-now n d e f h =
      let same : host d.time d.tohost d.fromhost ≡ (0, reply c) = simp (e, f) h in
      let some_answer : (reply c == 0) ≡ false = let z = serves.answers c sent in ground arith in
      let hit : ((fromhost_dev (reply c) == fromhost_dev c)
            && (fromhost_cmd (reply c) == fromhost_cmd c))
          ≡ true =
        ground (arith, serves.same_dev c sent, serves.same_cmd c sent) in
      rw same (rw (some_answer, hit) refl)

  await-later :
      (n dev cmd : ℕ) (d : Device)
      → d.tohost ≡ c
      → d.fromhost ≡ 0
      → host d.time c 0 ≡ (c, 0)
      → await_fromhost host (suc n) dev cmd d
        ≡ await_fromhost host n dev cmd (record d { tohost = c; fromhost = 0; time = d.time + 1 })
  unfolding await_fromhost
  await-later n dev cmd d e f h =
      let same : host d.time d.tohost d.fromhost ≡ (c, 0) = simp (e, f) h in rw same refl

  await-answered :
      (k : ℕ) (d : Device)
      → d.tohost ≡ c
      → d.fromhost ≡ 0
      → host (d.time + k) c 0 ≡ (0, reply c)
      → (n t : ℕ) × (await_fromhost host (suc n) (fromhost_dev c) (fromhost_cmd c) d
          ≡ ready tt (answered d t))
  await-answered zero d e f h =
      let z : d.time + 0 ≡ d.time = omega arith in (0, d.time + 1, await-now 0 d e f (rw z at h))
  await-answered (suc k) d e f h = elim (serves.keeps d.time c sent) [
    | inl kept ↦
        let next : Device = record d { tohost = c; fromhost = 0; time = d.time + 1 } in
        let z : d.time + suc k ≡ d.time + 1 + k = omega arith in
        let (n, t, r) = await-answered k next refl refl (rw z at h) in
        (suc n, t, await-later (suc n) _ _ d e f kept ∙ r)
    | inr now ↦ (0, d.time + 1, await-now 0 d e f now)
  ]

module _ (host : Host) (reply : ℕ → ℕ) (serves : Serves host reply) where
  set_tohost-sends :
      (n dev cmd payload : ℕ) (d : Device)
      → d.tohost ≡ 0
      → d.fromhost ≡ 0
      → set_tohost host (suc n) dev cmd payload d
        ≡ ready tt
            (record d { tohost = tohost_cmd dev cmd payload; fromhost = 0; time = d.time + 1 })
  unfolding set_tohost
  set_tohost-sends n dev cmd payload d e f =
      let same : host d.time d.tohost d.fromhost ≡ (0, 0) = simp (e, f) (serves.idle d.time) in
      rw same refl

  -- From an idle interface, a command of a device, a command byte and a payload that are not all
  -- 0 is answered: with enough rounds of polling `do_tohost_fromhost` returns, both registers
  -- are empty again, the lock is free and the console buffer is as before.
  pub do_tohost_fromhost-answered :
      (dev cmd payload : ℕ) (d : Device)
      → dev < 256
      → cmd < 256
      → payload < 2 ^ 48
      → tohost_cmd dev cmd payload ≢ 0
      → d.htif_lock ≡ 0
      → d.tohost ≡ 0
      → d.fromhost ≡ 0
      → (n t : ℕ) × (do_tohost_fromhost host n dev cmd payload d
          ≡ ready tt (record d { tohost = 0; fromhost = 0; htif_lock = 0; time = t }))
  unfolding do_tohost_fromhost spinlock_lock spinlock_unlock
  do_tohost_fromhost-answered dev cmd payload d hd hc hp sent l e f =
      let c = tohost_cmd dev cmd payload in
      let parts = tohost_cmd-parts dev cmd payload hd hc hp in
      let locked : Device = record d { htif_lock = int_minus_one } in
      let waiting : Device = record locked { tohost = c; fromhost = 0; time = d.time + 1 } in
      let (k, h) = serves.soon (d.time + 1) c sent in
      let (n, t, r) = await-answered host reply serves c sent k waiting refl refl h in
      let free : (d.htif_lock == 0) ≡ true = ground arith in
      (
        suc n,
        t,
        rw free (
            rw (set_tohost-sends n dev cmd payload locked e f)
              (rw (rw (parts.0, parts.1) at r) refl)),
      )

abbrev pub finished : ℕ → (ℕ → ℕ) → Device → Frontend
finished ret words d = record {
  lock = 0;
  magic_mem = λ i. if i == 0 then ret else words i;
  device = d;
}

-- With its lock free and an idle interface, `frontend_syscall` returns what the host makes of the
-- eight words, with the lock free and the interface idle.
pub frontend_syscall-returns :
    (host : Host) (reply : ℕ → ℕ) (service : Service) (magic n a0 a1 a2 a3 a4 a5 a6 : ℕ)
    (s : Frontend)
    → Serves host reply
    → magic ≢ 0
    → magic < 2 ^ 48
    → s.lock ≡ 0
    → s.device.htif_lock ≡ 0
    → s.device.tohost ≡ 0
    → s.device.fromhost ≡ 0
    → (polls t : ℕ) × (frontend_syscall host service polls magic n a0 a1 a2 a3 a4 a5 a6 s
        ≡ returned (service (magic_words n a0 a1 a2 a3 a4 a5 a6)) (
            finished
              (service (magic_words n a0 a1 a2 a3 a4 a5 a6))
              (magic_words n a0 a1 a2 a3 a4 a5 a6)
              (record (s.device) { tohost = 0; fromhost = 0; htif_lock = 0; time = t })))
unfolding frontend_syscall htif_syscall
frontend_syscall-returns host reply service magic n a0 a1 a2 a3 a4 a5 a6 s serves nz small l hl e
      f =
    let sent : tohost_cmd 0 0 magic ≢ 0 =
      λ z. absurd (omega (arith, tohost_cmd-sum 0 0 magic (omega arith) (omega arith) small)) in
    let (polls, t, r) =
      do_tohost_fromhost-answered host reply serves 0 0 magic s.device (omega arith) (omega arith)
        small sent hl e f in
    let free : (s.lock == 0) ≡ true = ground arith in (polls, t, rw (free, r) refl)

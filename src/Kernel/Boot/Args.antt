-- ===== src/Kernel/Boot/Args.antt =====
-- `parse_args` moves the pointers to the arguments to the front of the buffer they stand in.
use lq_os_lab.Base.{
  ℕ, zero, suc, ◌+◌, ◌-◌, ◌*◌, ◌/◌, ◌%◌, ◌^◌, ◌<◌, ◌≤◌, ◌≡◌, ◌⊎◌, refl, false, not, arith, ltb,
  ◌==◌, ap, ◌∙◌,
}
use lq_os_lab.Base.Memory.{Mem, u64_mod, IsBytes, load64, store64}
use lq_os_lab.Util.Copy.Words.{store64-at, store64-other, store64-IsBytes}
use lq_os_lab.World.{World, ok}
use lq_os_lab.Kernel.Elf.{store_bytes}
use lq_os_lab.Kernel.Boot.{Command, arg_buf_size, copy_args, set_mem, parse_args}

pub load64-lt : (m : Mem) (a : ℕ) → IsBytes m → load64 m a < u64_mod
unfolding load64
load64-lt m a b =
    omega (arith, b a, b (a + 1), b (a + 2), b (a + 3), b (a + 4), b (a + 5), b (a + 6), b (a + 7))

load64-store64 : (m : Mem) (a v : ℕ) → v < u64_mod → load64 (store64 m a v) a ≡ v
unfolding load64
load64-store64 m a v h =
    let z : a + 0 ≡ a = omega arith in
    let first : store64 m a v a ≡ v / 2 ^ (8 * 0) % 256 =
      rw z at (store64-at m a v 0 (omega arith)) in
    omega (
      arith,
      first,
      store64-at m a v 1 (omega arith),
      store64-at m a v 2 (omega arith),
      store64-at m a v 3 (omega arith),
      store64-at m a v 4 (omega arith),
      store64-at m a v 5 (omega arith),
      store64-at m a v 6 (omega arith),
      store64-at m a v 7 (omega arith),
    )

load64-store64_apart :
    (m : Mem) (a v x : ℕ) → (x + 8 ≤ a) ⊎ (a + 8 ≤ x) → load64 (store64 m a v) x ≡ load64 m x
unfolding load64
load64-store64_apart m a v x h = omega (
  arith,
  store64-other m a v x (omega arith),
  store64-other m a v (x + 1) (omega arith),
  store64-other m a v (x + 2) (omega arith),
  store64-other m a v (x + 3) (omega arith),
  store64-other m a v (x + 4) (omega arith),
  store64-other m a v (x + 5) (omega arith),
  store64-other m a v (x + 6) (omega arith),
  store64-other m a v (x + 7) (omega arith),
)

load64-same :
    (m m' : Mem) (a : ℕ) → ((i : ℕ) → i < 8 → m' (a + i) ≡ m (a + i)) → load64 m' a ≡ load64 m a
unfolding load64
load64-same m m' a h =
    let z : a + 0 ≡ a = omega arith in
    let first : m' a ≡ m a = rw z at (h 0 (omega arith)) in
    omega (
      arith,
      first,
      h 1 (omega arith),
      h 2 (omega arith),
      h 3 (omega arith),
      h 4 (omega arith),
      h 5 (omega arith),
      h 6 (omega arith),
      h 7 (omega arith),
    )

-- `k` words of the buffer, from index `i` on, took the words two places behind them.
pub record Shifted (args k i : ℕ) (m m' : Mem) : Type 0 where
  pub moved : (j : ℕ) → j < k → load64 m' (args + 8 * (i + j)) ≡ load64 m (args + 8 * (2 + i + j))
  pub kept : (a : ℕ) → (a < args + 8 * i) ⊎ (args + 8 * (i + k) ≤ a) → m' a ≡ m a
  pub bytes : IsBytes m'

copy_args-Shifted : (k args i : ℕ) (m : Mem) → IsBytes m → Shifted args k i m (copy_args k args i m)
unfolding copy_args
copy_args-Shifted zero args i m b = record {
  moved = λ j h. absurd (omega arith);
  kept = λ a h. refl;
  bytes = b;
}
copy_args-Shifted (suc k) args i m b =
    step (copy_args-Shifted k args (i + 1) m₁ (store64-IsBytes m (args + 8 * i) v b))
  where
    v : ℕ
    v = load64 m (args + 8 * (2 + i))

    m₁ : Mem
    m₁ = store64 m (args + 8 * i) v

    moved' :
        Shifted args k (i + 1) m₁ (copy_args k args (i + 1) m₁)
        → (j : ℕ) → j < suc k
        → load64 (copy_args k args (i + 1) m₁) (args + 8 * (i + j))
          ≡ load64 m (args + 8 * (2 + i + j))
    moved' s zero h =
        let e : i + 0 ≡ i = omega arith in
        let f : 2 + i + 0 ≡ 2 + i = omega arith in
        rw (e, f)
          (load64-same m₁ (copy_args k args (i + 1) m₁) (args + 8 * i)
              (λ n lt. s.kept (args + 8 * i + n) (omega arith))
            ∙ load64-store64 m (args + 8 * i) v (load64-lt m (args + 8 * (2 + i)) b))
    moved' s (suc j) h =
        let e : i + suc j ≡ i + 1 + j = omega arith in
        let f : 2 + i + suc j ≡ 2 + (i + 1) + j = omega arith in
        rw (e, f)
          (s.moved j (omega arith)
            ∙ load64-store64_apart m (args + 8 * i) v (args + 8 * (2 + (i + 1) + j)) (omega arith))

    step :
        Shifted args k (i + 1) m₁ (copy_args k args (i + 1) m₁)
        → Shifted args (suc k) i m (copy_args k args (i + 1) m₁)
    step s = record {
      moved = λ j h. moved' s j h;
      kept = λ a h. s.kept a (omega arith) ∙ store64-other m (args + 8 * i) v a (omega arith);
      bytes = s.bytes;
    }

-- With the host's answer 0 and at most 63 strings on the command line, the kernel's own name
-- among them, `parse_args` returns their number less one, moves the pointers behind the first
-- to the front of the buffer, and changes nothing else of what the host has left in memory.
pub parse_args-Shifted :
    (c : Command) (args : ℕ) (w : World)
    → IsBytes (store_bytes w.mem args arg_buf_size c.main_bytes)
    → c.main_result ≡ 0
    → 1 ≤ load64 (store_bytes w.mem args arg_buf_size c.main_bytes) args
    → load64 (store_bytes w.mem args arg_buf_size c.main_bytes) args ≤ 63
    → (m : Mem) × (parse_args c args w
        ≡ ok (load64 (store_bytes w.mem args arg_buf_size c.main_bytes) args - 1) (set_mem m w))
      × Shifted args
          (load64 (store_bytes w.mem args arg_buf_size c.main_bytes) args - 1)
          0
          (store_bytes w.mem args arg_buf_size c.main_bytes)
          m
unfolding parse_args
parse_args-Shifted c args w b r some_args few =
    let filled = store_bytes w.mem args arg_buf_size c.main_bytes in
    let argc = load64 filled args in
    let e1 : not (c.main_result == 0) ≡ false = ground arith in
    let e2 : ltb 63 argc ≡ false = ground arith in
    let e3 : (argc + u64_mod - 1) % u64_mod ≡ argc - 1 = omega arith in
    (
      copy_args (argc - 1) args 0 filled,
      rw (e1, e2) (ap (λ (n : ℕ). ok n (set_mem (copy_args (argc - 1) args 0 filled) w)) e3),
      copy_args-Shifted (argc - 1) args 0 filled b,
    )

-- ===== src/Util/Copy/Move.antt =====
-- The copying functions copy: the destination holds what the source held, and nothing else changes.
use lq_os_lab.Base.{
  ℕ, zero, suc, ◌+◌, ◌-◌, ◌<◌, ◌≤◌, ◌≡◌, refl, ◌&&◌, ltb, arith, ◌⊎◌, inl, inr, Bool-cases, ◌∙◌,
}
use lq_os_lab.Base.Memory.{Mem, IsBytes, store8}
use lq_os_lab.Util.Copy.{move_up, move_down, memmove}

-- `m'` is `m` with the `n` bytes at `src`, as they are in `m`, at `dest`.
pub record IsCopy (m m' : Mem) (dest src n : ℕ) : Type 0 where
  pub inside : (i : ℕ) → i < n → m' (dest + i) ≡ m (src + i)
  pub outside : (a : ℕ) → (a < dest) ⊎ (dest + n ≤ a) → m' a ≡ m a

pub store8_self : (m : Mem) (a v : ℕ) → v < 256 → store8 m a v a ≡ v
unfolding store8
store8_self m a v h = ground arith

pub store8-other : (m : Mem) (a v x : ℕ) → (x < a) ⊎ (a < x) → store8 m a v x ≡ m x
unfolding store8
store8-other m a v x h = ground arith

pub store8-IsBytes : (m : Mem) (a v : ℕ) → IsBytes m → IsBytes (store8 m a v)
unfolding store8
store8-IsBytes m a v h x = ground (arith, h x)

-- Upwards, the bytes still to be read are not written first if the source lies at or above the
-- destination, or ends below it.
move_up-IsCopy :
    (n d s : ℕ) (m : Mem) → IsBytes m → (d ≤ s) ⊎ (s + n ≤ d) → IsCopy m (move_up n d s m) d s n
unfolding move_up
move_up-IsCopy zero d s m b apart = record {
  inside = λ i h. absurd (omega arith);
  outside = λ a h. refl;
}
move_up-IsCopy (suc n) d s m b apart =
    let m₁ = store8 m d (m s) in
    let ih = move_up-IsCopy n (d + 1) (s + 1) m₁ (store8-IsBytes m d (m s) b) (omega arith) in
    record {
      inside = λ i h. inside' ih i h;
      outside = λ a h. ih.outside a (omega arith) ∙ store8-other m d (m s) a (omega arith);
    }
  where
    inside' :
        IsCopy (store8 m d (m s)) (move_up n (d + 1) (s + 1) (store8 m d (m s))) (d + 1) (s + 1) n
        → (i : ℕ) → i < suc n
        → move_up n (d + 1) (s + 1) (store8 m d (m s)) (d + i) ≡ m (s + i)
    inside' ih zero h =
        let e : d + 0 ≡ d = omega arith in
        let f : s + 0 ≡ s = omega arith in
        rw (e, f) (ih.outside d (omega arith) ∙ store8_self m d (m s) (b s))
    inside' ih (suc i) h =
        let e : d + suc i ≡ d + 1 + i = omega arith in
        let f : s + suc i ≡ s + 1 + i = omega arith in
        rw (e, f) (ih.inside i (omega arith) ∙ store8-other m d (m s) (s + 1 + i) (omega arith))

-- Downwards, from the ends `de` and `se`, they are not if the source lies below the destination.
move_down-IsCopy :
    (n d s : ℕ) (m : Mem) → IsBytes m → s < d → IsCopy m (move_down n (d + n) (s + n) m) d s n
unfolding move_down
move_down-IsCopy zero d s m b below = record {
  inside = λ i h. absurd (omega arith);
  outside = λ a h. refl;
}
move_down-IsCopy (suc n) d s m b below =
    let e : d + suc n - 1 ≡ d + n = omega arith in
    let f : s + suc n - 1 ≡ s + n = omega arith in
    let ih =
      move_down-IsCopy n d s (store8 m (d + n) (m (s + n))) (store8-IsBytes m (d + n) (m (s + n)) b)
        below in
    rw (e, f)
      (record {
        inside = λ i h. inside' ih i h;
        outside =
            λ a h. ih.outside a (omega arith) ∙ store8-other m (d + n) (m (s + n)) a (omega arith);
      })
  where
    inside' :
        IsCopy
          (store8 m (d + n) (m (s + n)))
          (move_down n (d + n) (s + n) (store8 m (d + n) (m (s + n))))
          d
          s
          n
        → (i : ℕ) → i < suc n
        → move_down n (d + n) (s + n) (store8 m (d + n) (m (s + n))) (d + i) ≡ m (s + i)
    inside' ih i h = elim (Bool-cases (ltb i n)) [
      | inl low ↦
          ih.inside i (ground arith) ∙ store8-other m (d + n) (m (s + n)) (s + i) (ground arith)
      | inr last ↦
          let e : i ≡ n = ground arith in
          rw e (ih.outside (d + n) (omega arith) ∙ store8_self m (d + n) (m (s + n)) (b (s + n)))
    ]

-- `memmove` copies `n` bytes whether or not the blocks overlap: each byte of the destination is
-- the source's byte from before the call, and no other byte changes.
pub memmove-IsCopy :
    (dst src n : ℕ) (m : Mem) → IsBytes m → IsCopy m (memmove dst src n m) dst src n
unfolding memmove
memmove-IsCopy dst src n m b = elim (Bool-cases (ltb src dst && ltb dst (src + n))) [
  | inl overlap ↦ rw overlap (move_down-IsCopy n dst src m b (ground arith))
  | inr apart ↦ rw apart (move_up-IsCopy n dst src m b (ground arith))
]

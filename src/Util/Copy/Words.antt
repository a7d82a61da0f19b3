-- ===== src/Util/Copy/Words.antt =====
-- `memcpy` copies, by words where its pointers are aligned and by bytes for the rest.
use lq_os_lab.Base.{
  ℕ, zero, suc, ◌+◌, ◌-◌, ◌*◌, ◌/◌, ◌%◌, ◌^◌, ◌<◌, ◌≤◌, ◌≡◌, refl, bit_and, bit_or, Bool, true,
  false, ltb, leb, ◌==◌, if◌then◌else◌, arith, ◌⊎◌, inl, inr, ◌∙◌, ap, Bool-cases,
}
use lq_os_lab.Base.Memory.{Mem, IsBytes, load64, store8, store64}
use lq_os_lab.Util.Copy.{Copy, copy_words, copy_bytes, memcpy}
use lq_os_lab.Util.Copy.Move.{IsCopy, store8_self, store8-other, store8-IsBytes}

-- A word's bytes are the ones that were loaded.
load64-byte : (m : Mem) (a i : ℕ) → IsBytes m → i < 8 → load64 m a / 2 ^ (8 * i) % 256 ≡ m (a + i)
unfolding load64
load64-byte m a i b h = by_index i h
  where
    all :
        (m a < 256)
        × (m (a + 1) < 256)
        × (m (a + 2) < 256)
        × (m (a + 3) < 256)
        × (m (a + 4) < 256)
        × (m (a + 5) < 256)
        × (m (a + 6) < 256)
        × (m (a + 7) < 256)
    all = (b a, b (a + 1), b (a + 2), b (a + 3), b (a + 4), b (a + 5), b (a + 6), b (a + 7))

    by_index : (i : ℕ) → i < 8 → load64 m a / 2 ^ (8 * i) % 256 ≡ m (a + i)
    by_index zero h = let z : a + 0 ≡ a = omega arith in rw z (omega (arith, all))
    by_index (suc zero) h = omega (arith, all)
    by_index (suc (suc zero)) h = omega (arith, all)
    by_index (suc (suc (suc zero))) h = omega (arith, all)
    by_index (suc (suc (suc (suc zero)))) h = omega (arith, all)
    by_index (suc (suc (suc (suc (suc zero))))) h = omega (arith, all)
    by_index (suc (suc (suc (suc (suc (suc zero)))))) h = omega (arith, all)
    by_index (suc (suc (suc (suc (suc (suc (suc zero))))))) h = omega (arith, all)
    by_index (suc (suc (suc (suc (suc (suc (suc (suc j)))))))) h = absurd (omega arith)

pub store64-at : (m : Mem) (a v i : ℕ) → i < 8 → store64 m a v (a + i) ≡ v / 2 ^ (8 * i) % 256
unfolding store64
store64-at m a v i h =
    let e : a + i - a ≡ i = omega arith in
    let f : leb a (a + i) ≡ true = ground arith in
    let g : ltb (a + i) (a + 8) ≡ true = ground arith in rw (f, g, e) refl

pub store64-other : (m : Mem) (a v x : ℕ) → (x < a) ⊎ (a + 8 ≤ x) → store64 m a v x ≡ m x
unfolding store64
store64-other m a v x h = ground arith

pub store64-IsBytes : (m : Mem) (a v : ℕ) → IsBytes m → IsBytes (store64 m a v)
unfolding store64
store64-IsBytes m a v h x = ground (arith, h x)

store64-IsCopy : (m : Mem) (d s : ℕ) → IsBytes m → IsCopy m (store64 m d (load64 m s)) d s 8
store64-IsCopy m d s b = record {
  inside = λ i h. store64-at m d (load64 m s) i h ∙ load64-byte m s i b h;
  outside = λ a h. store64-other m d (load64 m s) a h;
}

store8-IsCopy : (m : Mem) (d s : ℕ) → IsBytes m → IsCopy m (store8 m d (m s)) d s 1
store8-IsCopy m d s b = record {
  inside = λ i h.
      let z : i ≡ 0 = omega arith in
      let e : d + 0 ≡ d = omega arith in
      let f : s + 0 ≡ s = omega arith in rw z (rw (e, f) (store8_self m d (m s) (b s)));
  outside = λ a h. store8-other m d (m s) a (omega arith);
}

-- The blocks of `n` bytes at `d` and `s` do not overlap.
abbrev pub IsApart : ℕ → ℕ → ℕ → Type 0
IsApart d s n = (s + n ≤ d) ⊎ (d + n ≤ s)

IsCopy-zero : (m : Mem) (d s : ℕ) → IsCopy m m d s 0
IsCopy-zero m d s = record { inside = λ i h. absurd (omega arith); outside = λ a h. refl }

IsCopy-then :
    (m m₁ m₂ : Mem) (d s a b n : ℕ)
    → a + b ≡ n
    → IsApart d s n
    → IsCopy m m₁ d s a
    → IsCopy m₁ m₂ (d + a) (s + a) b
    → IsCopy m m₂ d s n
IsCopy-then m m₁ m₂ d s a b n total apart first rest = record {
  inside = λ i h. elim (Bool-cases (ltb i a)) [
    | inl low ↦ rest.outside (d + i) (ground arith) ∙ first.inside i (ground arith)
    | inr high ↦
        let e : d + i ≡ d + a + (i - a) = ground arith in
        let f : s + i ≡ s + a + (i - a) = ground arith in
        ap m₂ e
        ∙ rest.inside (i - a) (ground arith)
        ∙ first.outside (s + a + (i - a)) (ground arith)
        ∙ ap m (omega arith)
  ];
  outside = λ x h. rest.outside x (omega arith) ∙ first.outside x (omega arith);
}

-- The bytes from the pointers on to the end are copied.
copy_bytes-IsCopy :
    (f n : ℕ) (c : Copy)
    → IsBytes c.mem
    → IsApart c.d c.s n
    → n ≤ f
    → IsCopy c.mem (copy_bytes f (c.d + n) c).mem c.d c.s n
unfolding copy_bytes
copy_bytes-IsCopy zero n c b apart h =
    let z : n ≡ 0 = omega arith in rw z (IsCopy-zero c.mem c.d c.s)
copy_bytes-IsCopy (suc f) zero c b apart h =
    let e : ltb c.d (c.d + 0) ≡ false = ground arith in rw e (IsCopy-zero c.mem c.d c.s)
copy_bytes-IsCopy (suc f) (suc n) c b apart h =
    let next : Copy = record { mem = store8 c.mem c.d (c.mem c.s); d = c.d + 1; s = c.s + 1 } in
    let more : ltb c.d (c.d + suc n) ≡ true = ground arith in
    let end : c.d + suc n ≡ c.d + 1 + n = omega arith in
    let ih =
      copy_bytes-IsCopy f n next (store8-IsBytes c.mem c.d (c.mem c.s) b) (omega arith)
        (omega arith) in
    rw more (
      rw end (
        IsCopy-then c.mem next.mem _ c.d c.s 1 n (suc n) (omega arith) apart
          (store8-IsCopy c.mem c.d c.s b) ih))

-- The state after some rounds by words, `k` bytes on.
record WordsCopied (c c' : Copy) (n : ℕ) : Type 0 where
  k : ℕ
  within : k ≤ n
  dest : c'.d ≡ c.d + k
  source : c'.s ≡ c.s + k
  bytes : IsBytes c'.mem
  copied : IsCopy c.mem c'.mem c.d c.s k

stays : (n : ℕ) (c : Copy) → IsBytes c.mem → WordsCopied c c n
stays n c b = record {
  k = 0;
  within = omega arith;
  dest = omega arith;
  source = omega arith;
  bytes = b;
  copied = IsCopy-zero c.mem c.d c.s;
}

goes_on :
    (n : ℕ) (c next c' : Copy)
    → IsApart c.d c.s n
    → IsCopy c.mem next.mem c.d c.s 8
    → next.d ≡ c.d + 8
    → next.s ≡ c.s + 8
    → 8 ≤ n
    → WordsCopied next c' (n - 8)
    → WordsCopied c c' n
goes_on n c next c' apart first e f wide w = record {
  k = 8 + w.k;
  within = omega (arith, w.within);
  dest = omega (arith, w.dest);
  source = omega (arith, w.source);
  bytes = w.bytes;
  copied =
      IsCopy-then c.mem next.mem c'.mem c.d c.s 8 w.k (8 + w.k) refl (omega (arith, w.within)) first
        (rw (← e, ← f) w.copied);
}

copy_words-WordsCopied :
    (f n : ℕ) (c : Copy)
    → IsBytes c.mem
    → IsApart c.d c.s n
    → WordsCopied c (copy_words f (c.d + n) c) n
unfolding copy_words
copy_words-WordsCopied zero n c b apart = stays n c b
copy_words-WordsCopied (suc f) n c b apart = elim (Bool-cases (ltb (c.d + 7) (c.d + n))) [
  | inl more ↦
      let next : Copy = record {
        mem = store64 c.mem c.d (load64 c.mem c.s);
        d = c.d + 8;
        s = c.s + 8;
      } in
      let wide : 8 ≤ n = ground arith in
      let end : c.d + n ≡ c.d + 8 + (n - 8) = omega arith in
      let ih =
        copy_words-WordsCopied f (n - 8) next (store64-IsBytes c.mem c.d (load64 c.mem c.s) b)
          (omega arith) in
      rw more (rw end (goes_on n c next _ apart (store64-IsCopy c.mem c.d c.s b) refl refl wide ih))
  | inr done ↦ rw done (stays n c b)
]

-- `memcpy` on blocks that do not overlap copies every byte, whether it goes by words or not, and
-- changes nothing else.
pub memcpy-IsCopy :
    (dest src len : ℕ) (m : Mem)
    → IsBytes m
    → IsApart dest src len
    → IsCopy m (memcpy dest src len m) dest src len
unfolding memcpy
memcpy-IsCopy dest src len m b apart =
    finish (if bit_and (bit_or dest src) 7 == 0 then copy_words len (dest + len) start else start)
      (words (bit_and (bit_or dest src) 7 == 0))
  where
    start : Copy
    start = record { mem = m; d = dest; s = src }

    words :
        (c : Bool) → WordsCopied start (if c then copy_words len (dest + len) start else start) len
    words true = copy_words-WordsCopied len len start b apart
    words false = stays len start b

    finish :
        (c : Copy)
        → WordsCopied start c len
        → IsCopy m (copy_bytes len (dest + len) c).mem dest src len
    finish c w =
        let end : c.d + (len - w.k) ≡ dest + len = omega (arith, w.within, w.dest) in
        let left =
          copy_bytes-IsCopy len (len - w.k) c w.bytes (omega (arith, w.within, w.dest, w.source))
            (omega arith) in
        IsCopy-then m c.mem _ dest src w.k (len - w.k) len (omega (arith, w.within)) apart w.copied
          (rw (← w.dest, ← w.source, ← end) left)

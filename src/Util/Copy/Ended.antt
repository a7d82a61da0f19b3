-- ===== src/Util/Copy/Ended.antt =====
-- `strcpy` and `safestrcpy` copy a string to a place apart from it.
use mathlib.Core.Path.{subst}
use lq_os_lab.Base.{
  ℕ, zero, suc, ◌+◌, ◌-◌, ◌<◌, ◌≤◌, ◌≡◌, ◌≢◌, ◌⊎◌, inl, inr, sym, ap, ◌∙◌, true, false, some, List,
  [], ◌∷◌, arith, ◌==◌, length, take,
}
use lq_os_lab.Base.Memory.{Mem, u64_mod, store8}
use lq_os_lab.Util.Strings.Lexical.{StandsAt}
use lq_os_lab.Util.Copy.{strcpy_loop, strcpy, safestrcpy_loop, safestrcpy}

store8-at : (m : Mem) (a v : ℕ) → v < 256 → store8 m a v a ≡ v
unfolding store8
store8-at m a v h = ground arith

store8-other : (m : Mem) (a v x : ℕ) → (x < a) ⊎ (a < x) → store8 m a v x ≡ m x
unfolding store8
store8-other m a v x (inl h) = ground arith
store8-other m a v x (inr h) = ground arith

StandsAt-kept :
    (m m' : Mem) (i : ℕ) (t : List ℕ)
    → ((a : ℕ) → i ≤ a → a ≤ i + length t → m' a ≡ m a)
    → StandsAt m i t
    → StandsAt m' i t
StandsAt-kept m m' i [] same h = same i (omega arith) (omega arith) ∙ h
StandsAt-kept m m' i (c ∷ t) same h = (
  same i (omega arith) (omega arith) ∙ h.0,
  h.1,
  h.2,
  StandsAt-kept m m' (i + 1) t (λ a lo hi. same a (omega arith) (omega arith)) h.3,
)

-- `m'` is `m` but for the string `t` at `d`, within `n` bytes.
pub record IsCopied (m m' : Mem) (d n : ℕ) (t : List ℕ) : Type 0 where
  pub text : StandsAt m' d t
  pub outside : (a : ℕ) → (a < d) ⊎ (d + n ≤ a) → m' a ≡ m a

-- The first byte, and then the rest behind it.
IsCopied-next :
    (m m' : Mem) (d n c : ℕ) (t : List ℕ)
    → c ≢ 0
    → c < 256
    → IsCopied (store8 m d c) m' (d + 1) n t
    → IsCopied m m' d (suc n) (c ∷ t)
IsCopied-next m m' d n c t nz small h = record {
  text = (h.outside d (inl (omega arith)) ∙ store8-at m d c small, nz, small, h.text);
  outside = λ a o. apart a o;
}
  where
    apart : (a : ℕ) → (a < d) ⊎ (d + suc n ≤ a) → m' a ≡ m a
    apart a (inl o) = h.outside a (inl (omega arith)) ∙ store8-other m d c a (inl o)
    apart a (inr o) = h.outside a (inr (omega arith)) ∙ store8-other m d c a (inr (omega arith))

-- A NUL at `d`.
IsCopied-end : (m : Mem) (d n : ℕ) → IsCopied m (store8 m d 0) d (suc n) []
IsCopied-end m d n = record { text = store8-at m d 0 (omega arith); outside = λ a o. apart a o }
  where
    apart : (a : ℕ) → (a < d) ⊎ (d + suc n ≤ a) → store8 m d 0 a ≡ m a
    apart a (inl o) = store8-other m d 0 a (inl o)
    apart a (inr o) = store8-other m d 0 a (inr (omega arith))

-- Two ranges of addresses that do not meet.
abbrev pub Apart : ℕ → ℕ → ℕ → ℕ → Type 0
Apart d n s k = (d + n ≤ s) ⊎ (s + k ≤ d)

-- The rest of the string is where it was after the first byte is stored.
rest-kept :
    (m : Mem) (d n s c : ℕ) (t : List ℕ)
    → Apart d (suc n) s (suc (suc (length t)))
    → StandsAt m (s + 1) t
    → StandsAt (store8 m d c) (s + 1) t
rest-kept m d n s c t (inl o) h =
    StandsAt-kept m (store8 m d c) (s + 1) t (λ a lo hi. store8-other m d c a (inr (omega arith))) h
rest-kept m d n s c t (inr o) h =
    StandsAt-kept m (store8 m d c) (s + 1) t (λ a lo hi. store8-other m d c a (inl (omega arith))) h

Apart-next : (d n s k : ℕ) → Apart d (suc n) s (suc k) → Apart (d + 1) n (s + 1) k
Apart-next d n s k (inl o) = inl (omega arith)
Apart-next d n s k (inr o) = inr (omega arith)

loop-stop : (f d s : ℕ) (m : Mem) → m s ≡ 0 → strcpy_loop (suc f) d s m ≡ some (store8 m d 0)
unfolding strcpy_loop
loop-stop f d s m h =
    let e : (m s == 0) ≡ true = ground arith in
    rw (e, strcpy_loop) (ap (λ v. some (store8 m d v)) h)

loop-next :
    (f d s c : ℕ) (m : Mem)
    → m s ≡ c
    → c ≢ 0
    → strcpy_loop (suc f) d s m ≡ strcpy_loop f (d + 1) (s + 1) (store8 m d c)
unfolding strcpy_loop
loop-next f d s c m h n =
    let e : (m s == 0) ≡ false = ground arith in
    rw (e, strcpy_loop) (ap (λ v. strcpy_loop f (d + 1) (s + 1) (store8 m d v)) h)

strcpy_loop-IsCopied :
    (f d s : ℕ) (m : Mem) (t : List ℕ)
    → length t < f
    → Apart d (suc (length t)) s (suc (length t))
    → StandsAt m s t
    → (m' : Mem) × (strcpy_loop f d s m ≡ some m') × IsCopied m m' d (suc (length t)) t
strcpy_loop-IsCopied zero d s m t h o st = absurd (omega arith)
strcpy_loop-IsCopied (suc f) d s m [] h o st =
    (store8 m d 0, loop-stop f d s m st, IsCopied-end m d 0)
strcpy_loop-IsCopied (suc f) d s m (c ∷ t) h o st =
    let (m', e, copied) =
      strcpy_loop-IsCopied f (d + 1) (s + 1) (store8 m d c) t (omega arith)
        (Apart-next d (suc (length t)) s (suc (length t)) o)
        (rest-kept m d (suc (length t)) s c t o st.3) in
    (
      m',
      loop-next f d s c m st.0 st.1 ∙ e,
      IsCopied-next m m' d (suc (length t)) c t st.1 st.2 copied,
    )

-- `strcpy` returns, has copied the string and its NUL, and has changed nothing else, when the
-- place for them and the string do not overlap.
pub strcpy-IsCopied :
    (d s : ℕ) (m : Mem) (t : List ℕ)
    → length t < u64_mod
    → Apart d (suc (length t)) s (suc (length t))
    → StandsAt m s t
    → (m' : Mem) × (strcpy d s m ≡ some m') × IsCopied m m' d (suc (length t)) t
unfolding strcpy
strcpy-IsCopied d s m t h o st = strcpy_loop-IsCopied u64_mod d s m t h o st

cut-stop :
    (k s t : ℕ) (m : Mem)
    → m t ≡ 0
    → safestrcpy_loop (suc k) s t m ≡ store8 (store8 m s 0) (s + 1) 0
unfolding safestrcpy_loop
cut-stop k s t m h =
    let e : (m t == 0) ≡ true = ground arith in
    rw (safestrcpy_loop, e) (ap (λ v. store8 (store8 m s v) (s + 1) 0) h)

cut-next :
    (k s t c : ℕ) (m : Mem)
    → m t ≡ c
    → c ≢ 0
    → safestrcpy_loop (suc k) s t m ≡ safestrcpy_loop k (s + 1) (t + 1) (store8 m s c)
unfolding safestrcpy_loop
cut-next k s t c m h n =
    let e : (m t == 0) ≡ false = ground arith in
    rw (safestrcpy_loop, e) (ap (λ v. safestrcpy_loop k (s + 1) (t + 1) (store8 m s v)) h)

-- Two NULs in a row.
IsCopied-two : (m : Mem) (d n : ℕ) → IsCopied m (store8 (store8 m d 0) (d + 1) 0) d (suc (suc n)) []
IsCopied-two m d n = record {
  text =
      store8-other (store8 m d 0) (d + 1) 0 d (inl (omega arith)) ∙ store8-at m d 0 (omega arith);
  outside = λ a o. apart a o;
}
  where
    apart : (a : ℕ) → (a < d) ⊎ (d + suc (suc n) ≤ a) → store8 (store8 m d 0) (d + 1) 0 a ≡ m a
    apart a (inl o) =
        store8-other (store8 m d 0) (d + 1) 0 a (inl (omega arith)) ∙ store8-other m d 0 a (inl o)
    apart a (inr o) =
        store8-other (store8 m d 0) (d + 1) 0 a (inr (omega arith))
        ∙ store8-other m d 0 a (inr (omega arith))

safestrcpy_loop-IsCopied :
    (k s t : ℕ) (m : Mem) (u : List ℕ)
    → Apart s (suc k) t (suc (length u))
    → StandsAt m t u
    → IsCopied m (safestrcpy_loop k s t m) s (suc k) (take k u)
unfolding take
safestrcpy_loop-IsCopied zero s t m u o st = unfold safestrcpy_loop in IsCopied-end m s 0
safestrcpy_loop-IsCopied (suc k) s t m [] o st =
    subst (λ x. IsCopied m x s (suc (suc k)) []) (sym (cut-stop k s t m st)) (IsCopied-two m s k)
safestrcpy_loop-IsCopied (suc k) s t m (c ∷ u) o st =
    let rest =
      safestrcpy_loop-IsCopied k (s + 1) (t + 1) (store8 m s c) u
        (Apart-next s (suc k) t (suc (length u)) o) (rest-kept m s (suc k) t c u o st.3) in
    subst (λ x. IsCopied m x s (suc (suc k)) (c ∷ take k u)) (sym (cut-next k s t c m st.0 st.1))
      (IsCopied-next m _ s (suc k) c (take k u) st.1 st.2 rest)

-- `safestrcpy` with room for `n` bytes, of which there is at least one, leaves the first `n - 1`
-- bytes of the string, or all of it where it is shorter, ended by a NUL, and writes nothing
-- outside the `n` bytes, when these and the string do not overlap.
pub safestrcpy-IsCopied :
    (s t n : ℕ) (m : Mem) (u : List ℕ)
    → 1 ≤ n
    → Apart s n t (suc (length u))
    → StandsAt m t u
    → IsCopied m (safestrcpy s t n m) s n (take (n - 1) u)
unfolding safestrcpy
safestrcpy-IsCopied s t zero m u h o st = absurd (omega arith)
safestrcpy-IsCopied s t (suc k) m u h o st =
    let e : k ≡ suc k - 1 = omega arith in
    subst (λ j. IsCopied m (safestrcpy_loop k s t m) s (suc k) (take j u)) e
      (safestrcpy_loop-IsCopied k s t m u o st)

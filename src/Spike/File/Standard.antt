-- ===== src/Spike/File/Standard.antt =====
-- The standard files that `spike_file_init` opens.
use lq_os_lab.Base.{
  ℕ, zero, suc, ◌+◌, ◌<◌, ◌≤◌, ◌≡◌, ◌≢◌, inl, inr, refl, ap, ◌∙◌, arith, true, false, none, some,
  ◌==◌, ==_self, Bool-cases,
}
use lq_os_lab.Spike.File.{
  SpikeFile, Files, max_files, max_fds, init_file_ref, same_file, set_file, set_fd, add_ref,
  spike_file_incref, get_free_from, spike_file_get_free, free_fd_from, spike_file_dup, init_one,
  bind_files, spike_file_init,
}

get_free_from-first :
    (k i j : ℕ) (s : Files)
    → i ≤ j
    → j < i + k
    → ((n : ℕ) → i ≤ n → n < j → (s.files n).refcnt ≢ 0)
    → (s.files j).refcnt ≡ 0
    → get_free_from k i s ≡ some j
unfolding get_free_from
get_free_from-first zero i j s lo hi taken free = absurd (omega arith)
get_free_from-first (suc k) i j s lo hi taken free = elim (Bool-cases (i == j)) [
  | inl here ↦
      let z : i ≡ j = ground arith in
      let e : ((s.files i).refcnt == 0) ≡ true =
        ground (arith, ap (λ n. (s.files n).refcnt) z, free) in
      rw (get_free_from, e) (ap (λ (n : ℕ). some n) z)
  | inr behind ↦
      let e : ((s.files i).refcnt == 0) ≡ false = ground (arith, taken i) in
      rw (get_free_from, e)
        (get_free_from-first k (i + 1) j s (ground arith) (omega arith)
          (λ n l h. taken n (omega arith) h) free)
]

free_fd_from-first :
    (k i j : ℕ) (s : Files)
    → i ≤ j
    → j < i + k
    → ((n : ℕ) → i ≤ n → n < j → same_file (s.fds n) none ≡ false)
    → s.fds j ≡ none
    → free_fd_from k i s ≡ some j
unfolding free_fd_from
free_fd_from-first zero i j s lo hi taken free = absurd (omega arith)
free_fd_from-first (suc k) i j s lo hi taken free = elim (Bool-cases (i == j)) [
  | inl here ↦
      let z : i ≡ j = ground arith in
      let e : same_file (s.fds i) none ≡ true =
        ap (λ n. same_file (s.fds n) none) z ∙ ap (λ o. same_file o none) free in
      rw (free_fd_from, e) (ap (λ (n : ℕ). some n) z)
  | inr behind ↦
      rw (free_fd_from, taken i (omega arith) (ground arith))
        (free_fd_from-first k (i + 1) j s (ground arith) (omega arith)
          (λ n l h. taken n (omega arith) h) free)
]

-- The first `i` slots and descriptors are the standard ones, each file with a reference more than
-- a fresh one, and the rest is free.
pub record IsStandard (i : ℕ) (s : Files) : Type 0 where
  pub opened : (j : ℕ) → j < i → s.files j ≡ record { kfd = j; refcnt = 4 }
  pub bound : (j : ℕ) → j < i → s.fds j ≡ some j
  pub free : (j : ℕ) → i ≤ j → j < max_files → (s.files j).refcnt ≡ 0
  pub unbound : (j : ℕ) → i ≤ j → j < max_fds → s.fds j ≡ none

-- The table of one round: the slot taken, its descriptor set, bound, and one more reference.
abbrev given : ℕ → Files → Files
given i s = set_file i (record (s.files i) { refcnt = init_file_ref }) s

abbrev named : ℕ → Files → Files
named i s = set_file i (record ((given i s).files i) { kfd = i }) (given i s)

abbrev after_one : ℕ → Files → Files
after_one i s = add_ref i 1 (set_fd i (some i) (named i s))

get_free-first :
    (i : ℕ) (s : Files)
    → IsStandard i s
    → i < max_files
    → spike_file_get_free s ≡ (some i, set_file i (record (s.files i) { refcnt = init_file_ref }) s)
unfolding spike_file_get_free
get_free-first i s std lt =
    let e =
      get_free_from-first max_files 0 i s (omega arith) (omega arith)
        (λ n lo hi.
          λ z. absurd (omega (arith, ap (λ (f : SpikeFile). f.refcnt) (std.opened n hi), z)))
        (std.free i (omega arith) lt) in
    rw (spike_file_get_free, e) refl

incref-held :
    (i : ℕ) (s : Files) → spike_file_incref i (set_fd i (some i) (named i s)) ≡ some (after_one i s)
unfolding spike_file_incref
incref-held i s =
    let e : (i == i) ≡ true = ==_self i in
    let three : (((set_fd i (some i) (named i s)).files i).refcnt == 0) ≡ false = rw e refl in
    rw (spike_file_incref, three) refl

dup-first :
    (i : ℕ) (s : Files)
    → IsStandard i s
    → i < max_files
    → spike_file_dup i (named i s) ≡ some (i, after_one i s)
unfolding spike_file_dup
dup-first i s std lt =
    let e =
      free_fd_from-first max_fds 0 i (named i s) (omega arith) (omega arith)
        (λ n lo hi. ap (λ o. same_file o none) (std.bound n hi)) (std.unbound i (omega arith) lt) in
    rw (spike_file_dup, e, incref-held i s) refl

-- The file that the round leaves in its slot.
after_one-file : (i : ℕ) (s : Files) → (after_one i s).files i ≡ record { kfd = i; refcnt = 4 }
after_one-file i s = let e : (i == i) ≡ true = ==_self i in rw e refl

after_one-IsStandard : (i : ℕ) (s : Files) → IsStandard i s → IsStandard (i + 1) (after_one i s)
after_one-IsStandard i s std = record {
  opened = λ j lt. elim (Bool-cases (j == i)) [
    | inl here ↦ let z : j ≡ i = ground arith in rw z (after_one-file i s)
    | inr apart ↦ rw apart (std.opened j (ground arith))
  ];
  bound = λ j lt. elim (Bool-cases (j == i)) [
    | inl here ↦
        let z : j ≡ i = ground arith in let e : (i == i) ≡ true = ==_self i in rw z (rw e refl)
    | inr apart ↦ rw apart (std.bound j (ground arith))
  ];
  free = λ j lo hi. let e : (j == i) ≡ false = ground arith in rw e (std.free j (omega arith) hi);
  unbound =
      λ j lo hi. let e : (j == i) ≡ false = ground arith in rw e (std.unbound j (omega arith) hi);
}

init_one-next :
    (i : ℕ) (s : Files)
    → IsStandard i s
    → i < max_files
    → (s' : Files) × (init_one i s ≡ some s') × IsStandard (i + 1) s' × (s'.closed ≡ s.closed)
unfolding init_one
init_one-next i s std lt = (
  after_one i s,
  ap
        (λ p. elim p.0 [
          | none ↦ none
          | some f ↦ elim (spike_file_dup f (set_file f (record (p.1.files f) { kfd = i }) p.1)) [
            | none ↦ none
            | some (fd, s'') ↦ some s''
          ]
        ])
        (get_free-first i s std lt)
      ∙ ap (λ o. elim o [ none ↦ none | some (fd, s'') ↦ some s'' ]) (dup-first i s std lt),
  after_one-IsStandard i s std,
  refl,
)

-- From a table with no file in it, `spike_file_init` returns, and the first three slots hold the
-- host's descriptors 0, 1 and 2, each bound at its own number and with one reference more than a
-- fresh file has; the other slots and descriptors are free, and nothing was closed.
pub spike_file_init-IsStandard :
    (s : Files)
    → IsStandard 0 s
    → (s' : Files) × (spike_file_init s ≡ some s') × IsStandard 3 s' × (s'.closed ≡ s.closed)
unfolding spike_file_init
spike_file_init-IsStandard s std =
    let (s1, e1, std1, c1) = init_one-next 0 s std (omega arith) in
    let (s2, e2, std2, c2) = init_one-next 1 s1 std1 (omega arith) in
    let (s3, e3, std3, c3) = init_one-next 2 s2 std2 (omega arith) in
    (
      s3,
      ap (λ o. bind_files (bind_files o (init_one 1)) (init_one 2)) e1
          ∙ (ap (λ o. bind_files o (init_one 2)) e2 ∙ e3),
      std3,
      c3 ∙ c2 ∙ c1,
    )

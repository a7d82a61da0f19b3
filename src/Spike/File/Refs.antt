-- ===== src/Spike/File/Refs.antt =====
-- The reference counts of the file table: what opening and closing do to a slot.
use mathlib.Core.Path.{fun_ext}
use lq_os_lab.Base.{
  ℕ, zero, suc, ◌+◌, ◌-◌, ◌%◌, ◌^◌, ◌<◌, ◌≤◌, ◌≡◌, ◌≢◌, refl, true, Option, none, some, ◌∷◌, ltb,
  ◌==◌, if◌then◌else◌, arith, Bool-cases, inl, inr, ◌⊎◌, ◌↔◌, ap, ◌∙◌, ==_self,
}
use lq_os_lab.Base.Memory.{u64_mod, u32_mod}
use lq_os_lab.Spike.File.{
  SpikeFile, Files, max_files, max_fds, init_file_ref, minus_one, same_file, set_file, set_fd,
  add_ref, spike_file_decref, get_free_from, spike_file_get_free, Opened, file, error, enomem,
  spike_file_openat, spike_file_close,
}

-- The first slot from `i` up to `n` that no file holds.
abbrev pub FirstFree : Files → ℕ → ℕ → Option ℕ → Type 0
FirstFree s i n none = (j : ℕ) → i ≤ j → j < n → (s.files j).refcnt ≢ 0
FirstFree s i n (some f) =
    (i ≤ f)
    × (f < n)
    × ((s.files f).refcnt ≡ 0)
    × ((j : ℕ) → i ≤ j → j < f → (s.files j).refcnt ≢ 0)

get_free_from-FirstFree :
    (k i n : ℕ) (s : Files) → i + k ≡ n → FirstFree s i n (get_free_from k i s)
unfolding get_free_from
get_free_from-FirstFree zero i n s e = λ j lo hi. absurd (omega arith)
get_free_from-FirstFree (suc k) i n s e = elim (Bool-cases ((s.files i).refcnt == 0)) [
  | inl free ↦ rw free (omega arith, omega arith, ground arith, λ j lo hi. absurd (omega arith))
  | inr taken ↦ rw taken (
      further (λ z. absurd (ground arith)) (get_free_from k (i + 1) s)
        (get_free_from-FirstFree k (i + 1) n s (omega arith)))
]
  where
    -- `j` is `i` or lies behind it.
    split : (j : ℕ) → i ≤ j → (j ≡ i) ⊎ (i + 1 ≤ j)
    split j lo = elim (Bool-cases (j == i)) [
      | inl e ↦ inl (ground arith)
      | inr ne ↦ inr (ground arith)
    ]

    taken_at : (s.files i).refcnt ≢ 0 → (j : ℕ) → j ≡ i → (s.files j).refcnt ≢ 0
    taken_at t j e = rw e t

    further : (s.files i).refcnt ≢ 0 → (r : Option ℕ) → FirstFree s (i + 1) n r → FirstFree s i n r
    further t none h =
        λ j lo hi. elim (split j lo) [ inl e ↦ taken_at t j e | inr behind ↦ h j behind hi ]
    further t (some f) h = (
      omega (arith, h.0),
      h.1,
      h.2,
      λ j lo hi. elim (split j lo) [ inl e ↦ taken_at t j e | inr behind ↦ h.3 j behind hi ],
    )

-- The two outcomes of the search for a slot.
abbrev pub Gets : Files → Option ℕ × Files → Type 0
Gets s (none, s') = FirstFree s 0 max_files none × (s' ≡ s)
Gets s (some f, s') =
    FirstFree s 0 max_files (some f)
    × (s' ≡ set_file f (record (s.files f) { refcnt = init_file_ref }) s)

-- `spike_file_get_free` gives the first slot with no references and takes three on it, leaving
-- every other slot alone, and fails, changing nothing, exactly if all 128 slots are taken.
pub get_free-Gets : (s : Files) → Gets s (spike_file_get_free s)
unfolding spike_file_get_free
get_free-Gets s =
    found (get_free_from max_files 0 s)
      (get_free_from-FirstFree max_files 0 max_files s (omega arith))
  where
    found :
        (r : Option ℕ)
        → FirstFree s 0 max_files r
        → Gets s (elim r [
          | none ↦ (none, s)
          | some f ↦ (some f, set_file f (record (s.files f) { refcnt = init_file_ref }) s)
        ])
    found none h = (h, refl)
    found (some f) h = (h, refl)

same_file_iff : (a b : Option ℕ) → (same_file a b ≡ true) ↔ (a ≡ b)
same_file_iff none none = ground arith
same_file_iff none (some j) = ground arith
same_file_iff (some i) none = ground arith
same_file_iff (some i) (some j) = ground arith

-- A fresh file has three references, and a host descriptor that can index `spike_fds`.
pub record IsFresh (f : ℕ) (s : Files) : Type 0 where
  pub refs : (s.files f).refcnt ≡ init_file_ref
  pub in_range : (s.files f).kfd < max_fds

-- Closing a fresh file that `spike_fds` has at its host descriptor answers 0, clears the entry,
-- frees the slot and closes the host file.
pub close-held :
    (f : ℕ) (s : Files)
    → IsFresh f s
    → s.fds (s.files f).kfd ≡ some f
    → (s' : Files) × (spike_file_close (some f) s ≡ some (0, s'))
      × ((s'.files f).refcnt ≡ 0)
      × (s'.fds (s.files f).kfd ≡ none)
      × (s'.closed ≡ (s.files f).kfd ∷ s.closed)
unfolding spike_file_close spike_file_decref
close-held f s fresh hit =
    let h : same_file (s.fds (s.files f).kfd) (some f) ≡ true = (same_file_iff _ _).1 hit in
    (
      spike_file_decref f (spike_file_decref f (set_fd (s.files f).kfd none s)),
      ground (arith, fresh.refs, fresh.in_range),
      ground (arith, fresh.refs),
      ground (arith, fresh.refs),
      ground (arith, fresh.refs),
    )

-- Closing a fresh file that `spike_fds` does not have at its host descriptor answers -1, keeps the
-- slot taken with two references, and leaves the host file open.
pub close-leaks :
    (f : ℕ) (s : Files)
    → IsFresh f s
    → s.fds (s.files f).kfd ≢ some f
    → (s' : Files) × (spike_file_close (some f) s ≡ some (minus_one, s'))
      × ((s'.files f).refcnt ≡ 2)
      × (s'.closed ≡ s.closed)
unfolding spike_file_close spike_file_decref
close-leaks f s fresh miss = (
  add_ref f minus_one s,
  ground (arith, fresh.refs, fresh.in_range, (same_file_iff (s.fds (s.files f).kfd) (some f)).0),
  ground (arith, fresh.refs),
  refl,
)

-- The outcomes of an open whose host call answers `ret`.
abbrev pub Opens : ℕ → Files → Opened × Files → Type 0
Opens ret s (file f, s') =
    (ret < 2 ^ 63)
    × FirstFree s 0 max_files (some f)
    × (s' ≡ set_file f (record { kfd = ret % u32_mod; refcnt = init_file_ref }) s)
Opens ret s (error e, s') =
    ((e ≡ u64_mod - enomem) × FirstFree s 0 max_files none × (s' ≡ s))
    ⊎ ((e ≡ ret)
        × (2 ^ 63 ≤ ret)
        × ((f : ℕ) × FirstFree s 0 max_files (some f)
            × ((s'.files f).refcnt ≡ 2)
            × (s'.closed ≡ s.closed)))

set_file-twice :
    (f : ℕ) (u v : SpikeFile) (s : Files) → set_file f v (set_file f u s) ≡ set_file f v s
set_file-twice f u v s = ap (λ g. record s { files = g }) (fun_ext λ j. ground arith)

decref-fresh :
    (f : ℕ) (s : Files)
    → (s.files f).refcnt ≡ init_file_ref
    → (((spike_file_decref f s).files f).refcnt ≡ 2) × ((spike_file_decref f s).closed ≡ s.closed)
unfolding spike_file_decref
decref-fresh f s e = (ground arith, ground arith)

-- An open either finds no free slot and answers -ENOMEM with the table unchanged; or takes the
-- first free slot for the host's descriptor with three references; or, if the host refuses, answers
-- the host's error and leaves the slot taken with two references.
pub openat-Opens : (ret : ℕ) (s : Files) → Opens ret s (spike_file_openat ret s)
unfolding spike_file_openat
openat-Opens ret s = answer (spike_file_get_free s).0 (spike_file_get_free s).1 (get_free-Gets s)
  where
    answer :
        (r : Option ℕ) (s' : Files)
        → Gets s (r, s')
        → Opens ret s (elim r [
          | none ↦ (error (u64_mod - enomem), s')
          | some f ↦
              if ltb ret (2 ^ 63)
              then (file f, set_file f (record (s'.files f) { kfd = ret % u32_mod }) s')
              else (error ret, spike_file_decref f s')
        ])
    answer none s' g = inl (refl, g.0, g.1)
    answer (some f) s' g =
        let three : (s'.files f).refcnt ≡ init_file_ref = rw g.1 (rw (==_self f)) in
        let same_closed : s'.closed ≡ s.closed = ap (λ (x : Files). x.closed) g.1 in
        elim (Bool-cases (ltb ret (2 ^ 63))) [
          | inl good ↦ rw good (ground arith, g.0, rw g.1 (rw (==_self f) (set_file-twice f _ _ s)))
          | inr bad ↦ rw bad (
              inr (
                refl,
                ground arith,
                (f, g.0, (decref-fresh f s' three).0, (decref-fresh f s' three).1 ∙ same_closed),
              ))
        ]

-- ===== src/Kernel/Elf/Load.antt =====
-- What loading a program's segments does to memory, and what it has checked when it succeeds.
use mathlib.Core.Path.{subst}
use lq_os_lab.Base.{
  ℕ, zero, suc, ◌+◌, ◌-◌, ◌*◌, ◌<◌, ◌≡◌, refl, inl, inr, arith, ◌==◌, Bool-cases, ◌∙◌, ap,
}
use lq_os_lab.Base.Memory.{Mem}
use lq_os_lab.Kernel.Elf.{
  ElfFile, ElfHeader, ElfProgHeader, ElfStatus, el_ok, el_eio, el_enomem, el_notelf, el_err,
  elf_prog_load, prog_header_size, prog_header_of, int_off, load_segment, elf_load_loop, elf_load,
}
use lq_os_lab.Kernel.Elf.Segment.{InSegment, IsSound, SegmentLoads, OnOk, load_segment-Loads}

-- Program header `i` of a table at `off`.
abbrev pub header_at : ElfFile → ℕ → ℕ → ElfProgHeader
header_at f off i = prog_header_of (f.bytes (int_off (off + prog_header_size * i)))

-- The table of `k` headers at `off` was loaded from memory `m` to `m'`.
pub record TableLoads (f : ElfFile) (k off : ℕ) (m m' : Mem) : Type 0 where
  pub readable :
      (i : ℕ)
      → i < k
      → f.count prog_header_size (int_off (off + prog_header_size * i)) ≡ prog_header_size
  pub sound :
      (i : ℕ) → i < k → (header_at f off i).type ≡ elf_prog_load → IsSound f (header_at f off i)
  pub inside :
      (i a : ℕ)
      → i < k
      → InSegment (header_at f off i) a
      → ((j : ℕ) → i < j → j < k → ¬ InSegment (header_at f off j) a)
      → m' a ≡ f.bytes (header_at f off i).off (a - (header_at f off i).vaddr)
  pub outside : (a : ℕ) → ((i : ℕ) → i < k → ¬ InSegment (header_at f off i) a) → m' a ≡ m a

module _ (f : ElfFile) (off : ℕ) where
  -- Header `suc i` is header `i` of the table that begins at the second one.
  shift :
      (i : ℕ)
      → int_off (off + prog_header_size + prog_header_size * i)
        ≡ int_off (off + prog_header_size * suc i)
  shift i = ap int_off (omega arith)

  head : int_off off ≡ int_off (off + prog_header_size * 0)
  head = ap int_off (omega arith)

  abbrev header_from : ℕ → ElfProgHeader
  header_from o = prog_header_of (f.bytes o)

  TableLoads-step :
      (k : ℕ) (m m₁ m' : Mem)
      → f.count prog_header_size (int_off off) ≡ prog_header_size
      → SegmentLoads f (prog_header_of (f.bytes (int_off off))) m m₁
      → TableLoads f k (off + prog_header_size) m₁ m'
      → TableLoads f (suc k) off m m'
  TableLoads-step k m m₁ m' read first rest = record {
    readable = λ i h. readable' i h;
    sound = λ i h. sound' i h;
    inside = λ i a h. inside' i a h;
    outside = λ a no.
        rest.outside a
          (λ i h c. no (suc i) (omega arith) (subst (λ o. InSegment (header_from o) a) (shift i) c))
        ∙ first.outside a
            (λ c. no 0 (omega arith) (subst (λ o. InSegment (header_from o) a) head c));
  }
    where
      readable' :
          (i : ℕ)
          → i < suc k
          → f.count prog_header_size (int_off (off + prog_header_size * i)) ≡ prog_header_size
      readable' zero h = subst (λ o. f.count prog_header_size o ≡ prog_header_size) head read
      readable' (suc i) h =
          subst (λ o. f.count prog_header_size o ≡ prog_header_size) (shift i)
            (rest.readable i (omega arith))

      sound' :
          (i : ℕ)
          → i < suc k
          → (header_at f off i).type ≡ elf_prog_load
          → IsSound f (header_at f off i)
      sound' zero h =
          subst (λ o. (header_from o).type ≡ elf_prog_load → IsSound f (header_from o)) head
            first.sound
      sound' (suc i) h =
          subst (λ o. (header_from o).type ≡ elf_prog_load → IsSound f (header_from o)) (shift i)
            (rest.sound i (omega arith))

      inside' :
          (i a : ℕ)
          → i < suc k
          → InSegment (header_at f off i) a
          → ((j : ℕ) → i < j → j < suc k → ¬ InSegment (header_at f off j) a)
          → m' a ≡ f.bytes (header_at f off i).off (a - (header_at f off i).vaddr)
      inside' zero a h c later =
          rest.outside a (λ i h' c'.
            later (suc i) (omega arith) (omega arith)
              (subst (λ o. InSegment (header_from o) a) (shift i) c'))
          ∙ subst
              (λ o.
                InSegment (header_from o) a
                → m₁ a ≡ f.bytes (header_from o).off (a - (header_from o).vaddr))
              head (first.inside a) c
      inside' (suc i) a h c later =
          subst
            (λ o.
              InSegment (header_from o) a
              → m' a ≡ f.bytes (header_from o).off (a - (header_from o).vaddr))
            (shift i)
            (λ c'. rest.inside i a (omega arith) c' (λ j lo hi d.
              later (suc j) (omega arith) (omega arith)
                (subst (λ o. InSegment (header_from o) a) (shift j) d)))
            c

-- What is so of a loop that goes on after one segment.
after_segment :
    (f : ElfFile) (k off : ℕ) (m : Mem) (s : ElfStatus) (m₁ : Mem)
    → f.count prog_header_size (int_off off) ≡ prog_header_size
    → OnOk (SegmentLoads f (prog_header_of (f.bytes (int_off off))) m) (s, m₁)
    → OnOk
        (TableLoads f k (off + prog_header_size) m₁)
        (elf_load_loop f k (off + prog_header_size) m₁)
    → OnOk
        (TableLoads f (suc k) off m)
        (elim s [ el_ok ↦ elf_load_loop f k (off + prog_header_size) m₁ | other ↦ (other, m₁) ])
after_segment f k off m el_ok m₁ read first rest =
    weaken (elf_load_loop f k (off + prog_header_size) m₁) rest
  where
    weaken :
        (r : ElfStatus × Mem)
        → OnOk (TableLoads f k (off + prog_header_size) m₁) r
        → OnOk (TableLoads f (suc k) off m) r
    weaken (el_ok, m') h = TableLoads-step f off k m m₁ m' read first h
    weaken (el_eio, m') h = tt
    weaken (el_enomem, m') h = tt
    weaken (el_notelf, m') h = tt
    weaken (el_err, m') h = tt
after_segment f k off m el_eio m₁ read first rest = tt
after_segment f k off m el_enomem m₁ read first rest = tt
after_segment f k off m el_notelf m₁ read first rest = tt
after_segment f k off m el_err m₁ read first rest = tt

elf_load_loop-Loads :
    (f : ElfFile) (k off : ℕ) (m : Mem) → OnOk (TableLoads f k off m) (elf_load_loop f k off m)
unfolding elf_load_loop
elf_load_loop-Loads f zero off m = record {
  readable = λ i h. absurd (omega arith);
  sound = λ i h. absurd (omega arith);
  inside = λ i a h. absurd (omega arith);
  outside = λ a no. refl;
}
elf_load_loop-Loads f (suc k) off m =
    elim (Bool-cases (f.count prog_header_size (int_off off) == prog_header_size)) [
      | inl read ↦
          let seg = load_segment f (prog_header_of (f.bytes (int_off off))) m in
          rw read (
            after_segment f k off m seg.0 seg.1 (ground arith)
              (load_segment-Loads f (prog_header_of (f.bytes (int_off off))) m)
              (elf_load_loop-Loads f k (off + prog_header_size) seg.1))
      | inr short ↦ rw short tt
    ]

-- When `elf_load` succeeds, every program header could be read, and every loadable one has passed
-- the loader's checks: it is at least as long in memory as in the file, does not wrap round the
-- address space, and was read whole. Memory holds the file's bytes in each segment, where no later
-- one covers them, and is as before outside the segments.
pub elf_load-Loads :
    (f : ElfFile) (h : ElfHeader) (m : Mem) → OnOk (TableLoads f h.phnum h.phoff m) (elf_load f h m)
unfolding elf_load
elf_load-Loads f h m = elf_load_loop-Loads f h.phnum h.phoff m

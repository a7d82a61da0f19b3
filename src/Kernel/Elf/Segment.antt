-- ===== src/Kernel/Elf/Segment.antt =====
-- What loading one segment does to memory, and what it has checked when it succeeds.
use lq_os_lab.Base.{
  ℕ, ◌+◌, ◌-◌, ◌%◌, ◌<◌, ◌≤◌, ◌≡◌, refl, Bool, true, false, not, ◌&&◌, inl, inr, arith, ltb, leb,
  ◌==◌, if◌then◌else◌, Bool-cases,
}
use lq_os_lab.Base.Memory.{Mem, u64_mod}
use lq_os_lab.Kernel.Elf.{
  ElfFile, ElfProgHeader, ElfStatus, el_ok, el_eio, el_enomem, el_notelf, el_err, elf_prog_load,
  elf_alloc_mb, store_bytes, pread_to, load_segment,
}

-- `a` lies in the memory that a loadable segment takes.
pub record InSegment (ph : ElfProgHeader) (a : ℕ) : Type 0 where
  pub loadable : ph.type ≡ elf_prog_load
  pub from : ph.vaddr ≤ a
  pub to : a < ph.vaddr + ph.memsz

-- What was checked of a loadable segment.
pub record IsSound (f : ElfFile) (ph : ElfProgHeader) : Type 0 where
  pub covers_file : ph.filesz ≤ ph.memsz
  pub no_wrap : ph.vaddr ≤ (ph.vaddr + ph.memsz) % u64_mod
  pub whole : f.count ph.memsz ph.off ≡ ph.memsz

-- A segment that loads without an error.
pub record SegmentLoads (f : ElfFile) (ph : ElfProgHeader) (m m' : Mem) : Type 0 where
  pub sound : ph.type ≡ elf_prog_load → IsSound f ph
  pub inside : (a : ℕ) → InSegment ph a → m' a ≡ f.bytes ph.off (a - ph.vaddr)
  pub outside : (a : ℕ) → ¬ InSegment ph a → m' a ≡ m a

abbrev pub OnOk : (Mem → Type 0) → ElfStatus × Mem → Type 0
OnOk P (el_ok, m) = P m
OnOk P (el_eio, m) = Unit
OnOk P (el_enomem, m) = Unit
OnOk P (el_notelf, m) = Unit
OnOk P (el_err, m) = Unit

module _ (f : ElfFile) (ph : ElfProgHeader) (m : Mem) where
  abbrev Good : ElfStatus × Mem → Type 0
  Good = OnOk (SegmentLoads f ph m)

  if-Good :
      (c : Bool) (r s : ElfStatus × Mem)
      → (c ≡ true → Good r)
      → (c ≡ false → Good s)
      → Good (if c then r else s)
  if-Good true r s h k = h refl
  if-Good false r s h k = k refl

  skipped : not (ph.type == elf_prog_load) ≡ true → SegmentLoads f ph m m
  skipped e = record {
    sound = λ t. absurd (ground arith);
    inside = λ a s. absurd (ground (arith, s.loadable));
    outside = λ a n. refl;
  }

  stored :
      not (ph.type == elf_prog_load) ≡ false
      → IsSound f ph
      → SegmentLoads f ph m (pread_to f ph.vaddr ph.memsz ph.off m)
  unfolding pread_to store_bytes
  stored e sound = record {
    sound = λ t. sound;
    inside = λ a s. ground (arith, s.from, s.to, sound.whole);
    outside = λ a n. elim (Bool-cases (leb ph.vaddr a && ltb a (ph.vaddr + ph.memsz))) [
      | inl within ↦
          absurd (n (record { loadable = ground arith; from = ground arith; to = ground arith }))
      | inr out ↦ ground (arith, sound.whole)
    ];
  }

  -- A segment that loads is one of another type, which changes nothing, or has passed every check
  -- and then holds, at each address of it, the file's byte at the same distance; the rest of memory
  -- is as before. All `memsz` bytes come from the file, those behind `filesz` too.
  pub load_segment-Loads : Good (load_segment f ph m)
  unfolding load_segment elf_alloc_mb
  load_segment-Loads =
      let m' = pread_to f ph.vaddr ph.memsz ph.off m in
      let wraps = ltb ((ph.vaddr + ph.memsz) % u64_mod) ph.vaddr in
      let read : ElfStatus × Mem =
        if f.count ph.memsz ph.off == ph.memsz then (el_ok, m') else (el_eio, m') in
      let checked : ElfStatus × Mem = if wraps then (el_err, m) else read in
      if-Good (not (ph.type == elf_prog_load)) (el_ok, m)
        (if ltb ph.memsz ph.filesz then (el_err, m) else checked) skipped
        λ loadable.
          if-Good (ltb ph.memsz ph.filesz) (el_err, m) checked (λ e. tt)
            λ covers.
              if-Good wraps (el_err, m) read (λ e. tt)
                λ fits.
                  if-Good (f.count ph.memsz ph.off == ph.memsz) (el_ok, m') (el_eio, m')
                    (λ whole. stored loadable (record {
                      covers_file = ground arith;
                      no_wrap = ground arith;
                      whole = ground arith;
                    }))
                    (λ e. tt)

-- ===== src/Kernel/Symbols/Overrun.antt =====
-- A symbol table that is longer than the array it is read into, kernel/elf.c.
use lq_os_lab.Base.{ℕ, ◌+◌, ◌/◌, ◌<◌, ◌≤◌, ◌≡◌, inl, inr, sym, ap, ◌∙◌, arith, false, ◌==◌, lt→ltb}
use lq_os_lab.World.{Process, World, ok}
use lq_os_lab.Kernel.Elf.{ElfFile, ElfHeader, ElfSectionHeader, section_header_size}
use lq_os_lab.Kernel.Symbols.{
  section_offset, Scan, found, before_strtab, with_symbols, load_from, load_user_symbols,
}
use lq_os_lab.Kernel.Symbols.Complete.{
  section_at, IsAccepted, Finds, find_symtab-Finds, load_from-ok, with_tables,
}
use lq_os_lab.Kernel.Symbols.Held.{IsFirstTable, same-or-later}

module _ (f : ElfFile) (h : ElfHeader) where
  first-found :
      (k : ℕ) (s : Scan) → IsFirstTable f h k → Finds f h h.shnum 0 s → s ≡ found (section_at f h k)
  first-found k s first (inl (none, e)) =
      absurd (none k (omega arith) (omega (arith, first.0)) first.1)
  first-found k s first (inr (i, lo, hi, is, before, e)) = elim (same-or-later f h k i) [
    | inl earlier ↦ absurd (first.2 i earlier is)
    | inr (inl same) ↦ e ∙ ap (λ n. found (section_at f h n)) (sym same)
    | inr (inr later) ↦ absurd (before k (omega arith) later first.1)
  ]

  spilled :
      (sect : ElfSectionHeader) (p : Process) (i : ℕ)
      → before_strtab + i < sect.size
      → (with_tables f h sect p).strtab i ≡ f.bytes sect.off (before_strtab + i)
  unfolding with_symbols
  spilled sect p i long = rw (lt→ltb (before_strtab + i) sect.size long)

  -- The loader takes a symbol table that is longer than `symtab`: when the section headers can be
  -- read, the first symbol table has entries of the right size and by division no more than fit, and
  -- it and its strings can be read, the loader returns, and each byte of the table from 12296 on, of
  -- which there are at most 15, stands in the process's string table.
  pub load_user_symbols-overrun :
      (w : World) (k i : ℕ)
      → ((j : ℕ)
          → j < h.shnum
          → f.count section_header_size (section_offset h j) ≡ section_header_size)
      → IsFirstTable f h k
      → IsAccepted f h (section_at f h k)
      → 12296 + i < (section_at f h k).size
      → (u : World) × (load_user_symbols f h w ≡ ok tt u)
        × (u.user_app.strtab i ≡ f.bytes (section_at f h k).off (12296 + i))
        × (i < 15)
  unfolding load_user_symbols
  load_user_symbols-overrun w k i readable first accepted long =
      let some_section : (h.shnum == 0) ≡ false = ground (arith, first.0) in
      let few : (section_at f h k).size / 24 ≤ 512 = accepted.few in
      (
        record w { user_app = with_tables f h (section_at f h k) w.user_app },
        rw some_section (
            ap (λ s. load_from f h s w)
              (first-found k _ first
                (find_symtab-Finds f h h.shnum 0 (λ j lt. readable j (omega arith))))
            ∙ load_from-ok f h (section_at f h k) w accepted),
        spilled (section_at f h k) w.user_app i long,
        omega arith,
      )

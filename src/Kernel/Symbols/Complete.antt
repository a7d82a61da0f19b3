-- ===== src/Kernel/Symbols/Complete.antt =====
-- When the symbol loader returns, and what it has loaded.
use lq_os_lab.Base.{
  ℕ, zero, suc, ◌+◌, ◌*◌, ◌/◌, ◌<◌, ◌≤◌, ◌≡◌, ◌≢◌, ◌⊎◌, inl, inr, refl, true, false, some, ltb,
  ◌==◌, arith, ap, ◌∙◌, Bool-cases,
}
use lq_os_lab.World.{Process, World, ok}
use lq_os_lab.Kernel.Elf.{
  ElfFile, ElfHeader, ElfSectionHeader, section_header_size, section_header_of, symbol_size,
  sht_symtab, max_user_syms, max_user_strtab,
}
use lq_os_lab.Kernel.Symbols.{
  section_offset, get_elf_section_header, Scan, found, absent, find_symtab, with_strings,
  with_symbols, read_symbols, read_strings, load_from, load_user_symbols,
}

few_entries : (n : ℕ) → n ≤ symbol_size * max_user_syms → n / symbol_size ≤ max_user_syms
few_entries n h = omega arith

module _ (f : ElfFile) (h : ElfHeader) where
  abbrev pub section_at : ℕ → ElfSectionHeader
  section_at k = section_header_of (f.bytes (section_offset h k))

  -- A symbol table and the string table that it links to, which fit their arrays and can be read.
  pub record IsLoadable (sect : ElfSectionHeader) : Type 0 where
    pub link_read : f.count section_header_size (section_offset h sect.link) ≡ section_header_size
    pub strings_fit : (section_at sect.link).size ≤ max_user_strtab
    pub strings_read :
        f.count (section_at sect.link).size (section_at sect.link).off ≡ (section_at sect.link).size
    pub entries : sect.entsize ≡ symbol_size
    pub symbols_fit : sect.size ≤ symbol_size * max_user_syms
    pub symbols_read : f.count sect.size sect.off ≡ sect.size

  -- What the loader's checks ask of a symbol table: its size is only divided by that of an entry.
  pub record IsAccepted (sect : ElfSectionHeader) : Type 0 where
    pub link_read : f.count section_header_size (section_offset h sect.link) ≡ section_header_size
    pub strings_fit : (section_at sect.link).size ≤ max_user_strtab
    pub strings_read :
        f.count (section_at sect.link).size (section_at sect.link).off ≡ (section_at sect.link).size
    pub entries : sect.entsize ≡ symbol_size
    pub few : sect.size / symbol_size ≤ max_user_syms
    pub symbols_read : f.count sect.size sect.off ≡ sect.size

  loadable-IsAccepted : (sect : ElfSectionHeader) → IsLoadable sect → IsAccepted sect
  loadable-IsAccepted sect l = record {
    link_read = l.link_read;
    strings_fit = l.strings_fit;
    strings_read = l.strings_read;
    entries = l.entries;
    few = few_entries sect.size l.symbols_fit;
    symbols_read = l.symbols_read;
  }

  -- The section headers can be read, and every symbol table can be loaded.
  pub record SectionsLoad : Type 0 where
    pub readable :
        (k : ℕ)
        → k < h.shnum
        → f.count section_header_size (section_offset h k) ≡ section_header_size
    pub tables :
        (k : ℕ) → k < h.shnum → (section_at k).type ≡ sht_symtab → IsLoadable (section_at k)

  -- The process with the symbols and the strings of one symbol table.
  abbrev pub with_tables : ElfSectionHeader → Process → Process
  with_tables sect p =
      with_symbols f sect (sect.size / sect.entsize) (with_strings f (section_at sect.link) p)

  -- The first symbol table is loaded, or there is none and nothing changes.
  abbrev pub Tables : World → World → Type 0
  Tables w u =
      (((k : ℕ) → k < h.shnum → (section_at k).type ≢ sht_symtab) × (u ≡ w))
      ⊎ ((k : ℕ) × (k < h.shnum)
          × ((section_at k).type ≡ sht_symtab)
          × ((j : ℕ) → j < k → (section_at j).type ≢ sht_symtab)
          × (u ≡ record w { user_app = with_tables (section_at k) w.user_app }))

  header-read :
      (k : ℕ)
      → f.count section_header_size (section_offset h k) ≡ section_header_size
      → get_elf_section_header f h k ≡ some (section_at k)
  unfolding get_elf_section_header
  header-read k e =
      let same : (f.count section_header_size (section_offset h k) == section_header_size) ≡ true =
        ground (arith, e) in
      rw same refl

  -- What the first pass over the sections from `k` on finds.
  abbrev pub Finds : ℕ → ℕ → Scan → Type 0
  Finds n k s =
      (((j : ℕ) → k ≤ j → j < k + n → (section_at j).type ≢ sht_symtab) × (s ≡ absent))
      ⊎ ((i : ℕ) × (k ≤ i)
          × (i < k + n)
          × ((section_at i).type ≡ sht_symtab)
          × ((j : ℕ) → k ≤ j → j < i → (section_at j).type ≢ sht_symtab)
          × (s ≡ found (section_at i)))

  -- Section `k` is no symbol table, and those behind it up to `n` are none.
  none_from :
      (k n : ℕ)
      → (section_at k).type ≢ sht_symtab
      → ((i : ℕ) → k + 1 ≤ i → i < n → (section_at i).type ≢ sht_symtab)
      → (j : ℕ) → k ≤ j
      → j < n
      → (section_at j).type ≢ sht_symtab
  none_from k n no_table behind j lo hi = elim (Bool-cases (j == k)) [
    | inl same ↦ let e : k ≡ j = ground arith in λ z. no_table (ap (λ i. (section_at i).type) e ∙ z)
    | inr apart ↦ behind j (ground arith) hi
  ]

  -- So the rest decides.
  further :
      (n k : ℕ) (s s' : Scan)
      → s' ≡ s
      → (section_at k).type ≢ sht_symtab
      → Finds n (k + 1) s
      → Finds (suc n) k s'
  further n k s s' e no_table (inl (all, absents)) =
      inl (none_from k (k + suc n) no_table (λ i lo hi. all i lo (omega arith)), e ∙ absents)
  further n k s s' e no_table (inr (i, lo, hi, is_table, before, finds)) =
      inr (i, omega arith, omega arith, is_table, none_from k i no_table before, e ∙ finds)

  pub find_symtab-Finds :
      (n k : ℕ)
      → ((j : ℕ)
          → j < k + n
          → f.count section_header_size (section_offset h j) ≡ section_header_size)
      → Finds n k (find_symtab f h n k)
  unfolding find_symtab
  find_symtab-Finds zero k r = inl (λ j lo hi. absurd (omega arith), refl)
  find_symtab-Finds (suc n) k r = elim (Bool-cases ((section_at k).type == sht_symtab)) [
    | inl hit ↦ inr (
      k,
      omega arith,
      omega arith,
      ground arith,
      λ j lo hi. absurd (omega arith),
      rw (header-read k (r k (omega arith)), find_symtab, hit) refl,
    )
    | inr miss ↦
        further n k (find_symtab f h n (k + 1)) _
          (rw (header-read k (r k (omega arith)), find_symtab, miss) refl)
          (λ e. absurd (ground (arith, e)))
          (find_symtab-Finds n (k + 1) (λ j lt. r j (omega arith)))
  ]

  pub load_from-ok :
      (sect : ElfSectionHeader) (w : World)
      → IsAccepted sect
      → load_from f h (found sect) w ≡ ok tt (record w { user_app = with_tables sect w.user_app })
  unfolding load_from read_strings read_symbols
  load_from-ok sect w l =
      let str = section_at sect.link in
      let e1 : ltb max_user_strtab str.size ≡ false = ground (arith, l.strings_fit) in
      let e2 : (f.count str.size str.off == str.size) ≡ true = ground (arith, l.strings_read) in
      let e3 : (sect.entsize == 0) ≡ false = ground (arith, l.entries) in
      let few : sect.size / sect.entsize ≤ max_user_syms = rw l.entries l.few in
      let e4 : ltb max_user_syms (sect.size / sect.entsize) ≡ false = ground (arith, few) in
      let e5 : (sect.entsize == symbol_size) ≡ true = ground (arith, l.entries) in
      let e6 : (f.count sect.size sect.off == sect.size) ≡ true = ground (arith, l.symbols_read) in
      rw (header-read sect.link l.link_read, load_from, e1, e2, e3, e4, e5, e6) refl

  -- When the section headers can be read, and every symbol table in the file has entries of the
  -- right size, fits the process's array and can be read, as can its strings, the symbol loader
  -- returns, and has loaded the first symbol table, or nothing where there is none.
  pub load_user_symbols-ok :
      (w : World) → SectionsLoad → (u : World) × (load_user_symbols f h w ≡ ok tt u) × Tables w u
  unfolding load_user_symbols load_from
  load_user_symbols-ok w s = elim (Bool-cases (h.shnum == 0)) [
    | inl e ↦ (w, rw e refl, inl (λ k lt. absurd (ground arith), refl))
    | inr e ↦ rw e (from _ (find_symtab-Finds h.shnum 0 (λ j lt. s.readable j (omega arith))))
  ]
    where
      from :
          (r : Scan) → Finds h.shnum 0 r → (u : World) × (load_from f h r w ≡ ok tt u) × Tables w u
      from r (inl (all, e)) =
          (w, ap (λ x. load_from f h x w) e, inl (λ k lt. all k (omega arith) (omega arith), refl))
      from r (inr (i, lo, hi, is_table, before, e)) = (
        record w { user_app = with_tables (section_at i) w.user_app },
        ap (λ x. load_from f h x w) e
            ∙ load_from-ok (section_at i) w
                (loadable-IsAccepted (section_at i) (s.tables i (omega arith) is_table)),
        inr (i, omega arith, is_table, λ j lt. before j (omega arith) lt, refl),
      )

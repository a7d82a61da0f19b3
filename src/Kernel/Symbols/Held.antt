-- ===== src/Kernel/Symbols/Held.antt =====
-- The symbols and the strings that a process holds after the symbol loader.
use lq_os_lab.Base.{
  ℕ, zero, suc, ◌*◌, ◌+◌, ◌/◌, ◌<◌, ◌≡◌, ◌≢◌, ◌⊎◌, inl, inr, refl, sym, ap, arith, true, false, ltb,
  ◌==◌, Bool-cases,
}
use mathlib.Core.Path.{subst}
use lq_os_lab.Base.Memory.{load64}
use lq_os_lab.World.{ElfSymbol, Process, World}
use lq_os_lab.Kernel.Elf.{ElfFile, ElfHeader, ElfSectionHeader, symbol_size, symbol_of, sht_symtab}
use lq_os_lab.Kernel.Symbols.{before_strtab, with_strings, with_symbols}
use lq_os_lab.Kernel.Symbols.Complete.{section_at, IsLoadable, SectionsLoad, with_tables, Tables}

-- The number in the `n` bytes of `b` at `a + k` and behind, the lowest byte first.
abbrev pub little_endian : (ℕ → ℕ) → ℕ → ℕ → ℕ → ℕ
little_endian b a k zero = 0
little_endian b a k (suc n) = b (a + k) + 256 * little_endian b a (k + 1) n

-- The symbol at `a`, as the ELF format lays it out.
abbrev pub IsSymbol : (ℕ → ℕ) → ℕ → ElfSymbol → Type 0
IsSymbol b a s =
    (s.name ≡ little_endian b a 0 4)
    × (s.info ≡ b (a + 4))
    × (s.value ≡ little_endian b (a + 8) 0 8)
    × (s.size ≡ little_endian b (a + 16) 0 8)

start : (a : ℕ) → a + 0 ≡ a
start a = omega arith

symbol_of-IsSymbol : (b : ℕ → ℕ) (i : ℕ) → IsSymbol b (24 * i) (symbol_of b i)
unfolding symbol_of load64
symbol_of-IsSymbol b i = (
  rw (start (24 * i)) (omega arith),
  refl,
  rw (start (24 * i + 8)) (omega arith),
  rw (start (24 * i + 16)) (omega arith),
)

module _ (f : ElfFile) (h : ElfHeader) where
  -- The process's arrays hold the entries of a symbol table and the bytes of its string table.
  abbrev pub HoldsTable : ElfSectionHeader → Process → Type 0
  HoldsTable sect p =
      (p.sym_count ≡ sect.size / symbol_size)
      × ((i : ℕ) → i < sect.size / symbol_size → IsSymbol (f.bytes sect.off) (24 * i) (p.symtab i))
      × (p.strtab_sz ≡ (section_at f h sect.link).size)
      × ((i : ℕ)
          → i < (section_at f h sect.link).size
          → p.strtab i ≡ f.bytes (section_at f h sect.link).off i)

  -- Section `k` is the first symbol table.
  abbrev pub IsFirstTable : ℕ → Type 0
  IsFirstTable k =
      (k < h.shnum)
      × ((section_at f h k).type ≡ sht_symtab)
      × ((j : ℕ) → j < k → (section_at f h j).type ≢ sht_symtab)

  -- What the loader leaves: without a symbol table all is as before, and else the process holds the
  -- first one, and nothing but its four fields for symbols and strings has changed.
  abbrev pub Holds : World → World → Type 0
  Holds w u =
      (((k : ℕ) → k < h.shnum → (section_at f h k).type ≢ sht_symtab) × (u ≡ w))
      ⊎ ((k : ℕ) × IsFirstTable k
          × HoldsTable (section_at f h k) u.user_app
          × (u ≡ record w {
            user_app = record (w.user_app) {
              symtab = u.user_app.symtab;
              sym_count = u.user_app.sym_count;
              strtab = u.user_app.strtab;
              strtab_sz = u.user_app.strtab_sz;
            };
          }))

  -- Where the file has a symbol table, the process holds the first one.
  abbrev pub HasSymbols : Process → Type 0
  HasSymbols p =
      (k : ℕ)
      → k < h.shnum
      → (section_at f h k).type ≡ sht_symtab
      → ((j : ℕ) → j < k → (section_at f h j).type ≢ sht_symtab)
      → HoldsTable (section_at f h k) p

  with_tables-HoldsTable :
      (sect : ElfSectionHeader) (p : Process)
      → IsLoadable f h sect
      → HoldsTable sect (with_tables f h sect p)
  unfolding with_symbols with_strings
  with_tables-HoldsTable sect p l =
      let count : sect.size / sect.entsize ≡ sect.size / symbol_size =
        ap (λ n. sect.size / n) l.entries in
      (
        count,
        (λ i lt.
            let e : ltb i (sect.size / sect.entsize) ≡ true = ground (arith, count) in
            rw e (symbol_of-IsSymbol (f.bytes sect.off) i)),
        refl,
        (λ i lt.
            let e1 : ltb (before_strtab + i) sect.size ≡ false = ground (arith, l.symbols_fit) in
            let e2 : ltb i (section_at f h sect.link).size ≡ true = ground arith in
            rw (e1, e2) refl),
      )

  -- Two indices in order.
  pub same-or-later : (k i : ℕ) → (i < k) ⊎ ((k ≡ i) ⊎ (k < i))
  same-or-later k i = elim (Bool-cases (ltb i k)) [
    | inl before ↦ inl (ground arith)
    | inr behind ↦ elim (Bool-cases (k == i)) [
      | inl same ↦ inr (inl (ground arith))
      | inr other ↦ inr (inr (ground arith))
    ]
  ]

  -- What the loader's outcome says of the process.
  pub Tables-HasSymbols : (w u : World) → SectionsLoad f h → Tables f h w u → HasSymbols u.user_app
  Tables-HasSymbols w u s (inl (none, e)) k lt is first = absurd (none k lt is)
  Tables-HasSymbols w u s (inr (i, lt', is', first', e)) k lt is first = elim (same-or-later k i) [
    | inl before ↦ absurd (first i before is')
    | inr (inl same) ↦
        subst (λ n. HoldsTable (section_at f h n) u.user_app) (sym same)
          (subst (λ (x : World). HoldsTable (section_at f h i) x.user_app) (sym e)
            (with_tables-HoldsTable (section_at f h i) w.user_app (s.tables i lt' is')))
    | inr (inr later) ↦ absurd (first' k later is)
  ]

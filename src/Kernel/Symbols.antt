-- ===== src/Kernel/Symbols.antt =====
-- Loading the symbol table: `get_elf_section_header` and `load_user_symbols` of kernel/elf.c.
-- A `panic` stops the machine; dividing by an entry size of zero is undefined in C.
pub mod Bounds
pub mod Complete
pub mod Held
pub mod Overrun
use lq_os_lab.Base.{
  ℕ, zero, suc, ◌+◌, ◌-◌, ◌*◌, ◌/◌, ◌%◌, ◌^◌, Bool, true, false, not, Option, none, some, List, [],
  ◌∷◌, ltb, ◌==◌, if◌then◌else◌, text,
}
use lq_os_lab.Base.Memory.{u64_mod}
use lq_os_lab.World.{ElfSymbol, Process, World, ok, fault, Cmd}
use lq_os_lab.Spike.Utils.{panic}
use lq_os_lab.Kernel.Elf.{
  ElfFile, ElfHeader, ElfSectionHeader, section_header_size, section_header_of, symbol_size,
  symbol_of, sht_symtab, max_user_syms, max_user_strtab, int_off,
}

-- `loader->ehdr.shoff + idx * loader->ehdr.shentsize`, the product an `int`.
unfoldable pub section_offset : ElfHeader → ℕ → ℕ
section_offset h idx = (h.shoff + int_off (idx * h.shentsize)) % u64_mod

-- The section header, or `none` where the read is short.
unfoldable pub get_elf_section_header : ElfFile → ElfHeader → ℕ → Option ElfSectionHeader
get_elf_section_header f h idx =
    let offset = section_offset h idx in
    if f.count section_header_size offset == section_header_size
    then some (section_header_of (f.bytes offset))
    else none

-- The first pass: the symbol table's header, none, or a header that cannot be read.
pub data Scan : Type 0 where
  found : ElfSectionHeader → Scan
  absent unreadable : Scan

-- The sections from `k` on, `n` of them.
unfoldable pub find_symtab : ElfFile → ElfHeader → ℕ → ℕ → Scan
find_symtab f h zero k = absent
find_symtab f h (suc n) k =
    let rest = find_symtab f h n (k + 1) in
    elim (get_elf_section_header f h k) [
      | none ↦ unreadable
      | some sect ↦ if sect.type == sht_symtab then found sect else rest
    ]

-- `size` bytes into `strtab`, which is as long as `max_user_strtab`.
unfoldable pub with_strings : ElfFile → ElfSectionHeader → Process → Process
with_strings f str p = record p {
  strtab = λ i. if ltb i str.size then f.bytes str.off i else p.strtab i;
  strtab_sz = str.size;
}

-- Bytes that `symtab` and `sym_count` take in front of `strtab`.
abbrev pub before_strtab : ℕ
before_strtab = symbol_size * max_user_syms + 8

-- `size` bytes into `symtab`. What does not fit runs on over `sym_count`, which is set afterwards,
-- into `strtab`. An entry that is written in part lies behind `sym_count` and is never read.
unfoldable pub with_symbols : ElfFile → ElfSectionHeader → ℕ → Process → Process
with_symbols f sym count p = record p {
  symtab = λ i. if ltb i count then symbol_of (f.bytes sym.off) i else p.symtab i;
  sym_count = count;
  strtab = λ i.
      if ltb (before_strtab + i) sym.size then f.bytes sym.off (before_strtab + i) else p.strtab i;
}

-- From the string table on to the end.
unfoldable pub read_symbols : ElfFile → ElfSectionHeader → Process → Cmd (Unit {0})
read_symbols f sym p w =
    let count = sym.size / sym.entsize in
    if sym.entsize == 0
    then fault
    else if ltb max_user_syms count
    then panic (text "Too many symbols") [] w
    else if not (sym.entsize == symbol_size)
    then panic (text "Symbol entry size mismatch") [] w
    else if not (f.count sym.size sym.off == sym.size)
    then panic (text "Failed to load symbol table") [] w
    else ok tt (record w { user_app = with_symbols f sym count p })

unfoldable pub read_strings : ElfFile → ElfSectionHeader → ElfSectionHeader → Cmd (Unit {0})
read_strings f sym str w =
    if ltb max_user_strtab str.size
    then panic (text "String table buffer overflow") [] w
    else if not (f.count str.size str.off == str.size)
    then panic (text "Failed to load string table") [] w
    else read_symbols f sym (with_strings f str w.user_app) w

unfoldable pub load_from : ElfFile → ElfHeader → Scan → Cmd (Unit {0})
load_from f h unreadable w = panic (text "Error reading section header") [] w
load_from f h absent w = ok tt w
load_from f h (found sym) w = elim (get_elf_section_header f h sym.link) [
  | none ↦ panic (text "Error reading string table header") [] w
  | some str ↦ read_strings f sym str w
]

unfoldable pub load_user_symbols : ElfFile → ElfHeader → Cmd (Unit {0})
load_user_symbols f h w =
    if h.shnum == 0 then ok tt w else load_from f h (find_symtab f h h.shnum 0) w

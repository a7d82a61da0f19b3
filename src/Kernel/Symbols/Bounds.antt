-- ===== src/Kernel/Symbols/Bounds.antt =====
-- The symbol tables stay within the process's arrays, as far as the loader's checks go.
use lq_os_lab.Base.{
  ℕ, ◌/◌, ◌≤◌, ◌≡◌, refl, Bool, true, false, not, Option, none, some, List, [], ltb, ◌==◌,
  if◌then◌else◌, text, arith,
}
use lq_os_lab.World.{Process, World, Run, ok, halted, fault, diverges, After}
use lq_os_lab.Spike.Utils.{panic}
use lq_os_lab.Kernel.Elf.{
  ElfFile, ElfHeader, ElfSectionHeader, symbol_size, max_user_syms, max_user_strtab,
}
use lq_os_lab.Kernel.Syscall.Quiet.{Stops, panic-Stops}
use lq_os_lab.Kernel.Symbols.{
  get_elf_section_header, Scan, found, absent, unreadable, find_symtab, with_strings, with_symbols,
  read_symbols, read_strings, load_from, load_user_symbols,
}

-- The counts fit the arrays `symtab` and `strtab`.
pub record IsBounded (p : Process) : Type 0 where
  pub symbols : p.sym_count ≤ max_user_syms
  pub strings : p.strtab_sz ≤ max_user_strtab

-- What a return has done to the world: no more than the process's tables, within bounds.
pub record Loaded (w v : World) : Type 0 where
  pub process : Process
  pub only_process : v ≡ record w { user_app = process }
  pub same_frame : process.trapframe ≡ w.user_app.trapframe
  pub bounded : IsBounded process

abbrev pub Loads : World → Run (Unit {0}) → Type 0
Loads w r = After (λ _ v. Loaded w v) r

if-Loads :
    (w : World) (c : Bool) (r s : Run (Unit {0}))
    → (c ≡ true → Loads w r)
    → (c ≡ false → Loads w s)
    → Loads w (if c then r else s)
if-Loads w true r s h k = h refl
if-Loads w false r s h k = k refl

Stops-Loads : (w : World) (r : Run (Unit {0})) → Stops r → Loads w r
Stops-Loads w (ok a v) h = absurd h
Stops-Loads w (halted v) h = tt
Stops-Loads w fault h = tt
Stops-Loads w diverges h = tt

panics : (w : World) (s : List ℕ) → Loads w (panic s [] w)
panics w s = Stops-Loads w (panic s [] w) (panic-Stops (Unit {0}) s [] w)

-- A failed check stops the machine, and the rest is read under the check.
check-Loads :
    (w : World) (c : Bool) (s : List ℕ) (r : Run (Unit {0}))
    → (c ≡ false → Loads w r)
    → Loads w (if c then panic s [] w else r)
check-Loads w c s r = if-Loads w c (panic s [] w) r (λ e. panics w s)

read_symbols-Loads :
    (f : ElfFile) (sym : ElfSectionHeader) (p : Process) (w : World)
    → p.strtab_sz ≤ max_user_strtab
    → p.trapframe ≡ w.user_app.trapframe
    → Loads w (read_symbols f sym p w)
unfolding read_symbols
read_symbols-Loads f sym p w small same =
    let count = sym.size / sym.entsize in
    let short = f.count sym.size sym.off == sym.size in
    let final = ok tt (record w { user_app = with_symbols f sym count p }) in
    let loaded : ltb max_user_syms count ≡ false → Loads w final = λ few. record {
      process = with_symbols f sym count p;
      only_process = refl;
      same_frame = unfold with_symbols in same;
      bounded = unfold with_symbols in record { symbols = ground arith; strings = small };
    } in
    let last = if not short then panic (text "Failed to load symbol table") [] w else final in
    let sized =
      if not (sym.entsize == symbol_size)
      then panic (text "Symbol entry size mismatch") [] w
      else last in
    if-Loads w (sym.entsize == 0) fault
      (if ltb max_user_syms count then panic (text "Too many symbols") [] w else sized) (λ e. tt)
      (λ e. check-Loads w (ltb max_user_syms count) (text "Too many symbols") sized λ few.
        check-Loads w (not (sym.entsize == symbol_size)) (text "Symbol entry size mismatch") last
          λ e. check-Loads w (not short) (text "Failed to load symbol table") final λ e. loaded few)

read_strings-Loads :
    (f : ElfFile) (sym str : ElfSectionHeader) (w : World) → Loads w (read_strings f sym str w)
unfolding read_strings
read_strings-Loads f sym str w =
    let short = f.count str.size str.off == str.size in
    let rest = read_symbols f sym (with_strings f str w.user_app) w in
    check-Loads w (ltb max_user_strtab str.size) (text "String table buffer overflow")
      (if not short then panic (text "Failed to load string table") [] w else rest)
      λ fits. check-Loads w (not short) (text "Failed to load string table") rest λ e.
        read_symbols-Loads f sym (with_strings f str w.user_app) w
          (unfold with_strings in ground arith) (unfold with_strings in refl)

unchanged : (w : World) → IsBounded w.user_app → Loads w (ok tt w)
unchanged w b = record { process = w.user_app; only_process = refl; same_frame = refl; bounded = b }

load_from-Loads :
    (f : ElfFile) (h : ElfHeader) (s : Scan) (w : World)
    → IsBounded w.user_app
    → Loads w (load_from f h s w)
unfolding load_from
load_from-Loads f h unreadable w b = panics w (text "Error reading section header")
load_from-Loads f h absent w b = unchanged w b
load_from-Loads f h (found sym) w b = strings (get_elf_section_header f h sym.link)
  where
    strings :
        (o : Option ElfSectionHeader)
        → Loads w (elim o [
          | none ↦ panic (text "Error reading string table header") [] w
          | some str ↦ read_strings f sym str w
        ])
    strings none = panics w (text "Error reading string table header")
    strings (some str) = read_strings-Loads f sym str w

-- However the file is made up, when the symbol loader returns it has changed nothing but the
-- process, and not its trap frame, and the two counts that `find_symbol_name` relies on fit the
-- arrays: at most 512 symbols and at most 8192 bytes of strings.
pub load_user_symbols-Loads :
    (f : ElfFile) (h : ElfHeader) (w : World)
    → IsBounded w.user_app
    → Loads w (load_user_symbols f h w)
unfolding load_user_symbols
load_user_symbols-Loads f h w b =
    if-Loads w (h.shnum == 0) (ok tt w) (load_from f h (find_symtab f h h.shnum 0) w)
      (λ e. unchanged w b) (λ e. load_from-Loads f h (find_symtab f h h.shnum 0) w b)

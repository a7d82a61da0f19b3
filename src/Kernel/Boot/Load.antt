-- ===== src/Kernel/Boot/Load.antt =====
-- Loading the program into the process: when it succeeds, and what it leaves.
use mathlib.Core.Path.{subst}
use lq_os_lab.Base.{
  Bool-cases, ==_self, ℕ, ◌+◌, ◌*◌, ◌%◌, ◌^◌, ◌<◌, ◌≤◌, ◌≡◌, inl, inr, refl, sym, true, false, not,
  none, some, List, [], ◌∷◌, ◌++◌, arith, ltb, ◌==◌, if◌then◌else◌, text, ap, ◌∙◌,
}
use lq_os_lab.Base.Memory.{Mem, u64_mod, u32_mod}
use lq_os_lab.Util.Print.{Arg, num, str, long_arg}
use lq_os_lab.Util.Print.Spec.{
  render, step_piece, directive_piece, hex_piece, string_piece, hex_text,
}
use lq_os_lab.World.{Trapframe, World, ok, fault, Cmd, and_then}
use lq_os_lab.World.Runs.{Succeeds, and_then-ok}
use lq_os_lab.Spike.Utils.{sprint, panic}
use lq_os_lab.Spike.Utils.Console.{logged, sprint-ok}
use lq_os_lab.Spike.File.{
  Files, max_files, max_fds, Opened, file, error, same_file, spike_file_openat, spike_file_close,
  spike_file_decref, minus_one, set_fd,
}
use lq_os_lab.Spike.File.Refs.{Opens, openat-Opens}
use lq_os_lab.Kernel.Elf.{
  ElfFile, ElfHeader, header_size, header_of, elf_magic, el_ok, elf_prog_load, prog_header_size,
  int_off, elf_init,
}
use lq_os_lab.Hart.{dram_base, user_trap_frame, trapframe_size}
use lq_os_lab.Kernel.Elf.Segment.{IsSound, InSegment}
use lq_os_lab.Kernel.Elf.Load.{TableLoads, header_at, elf_load-Loads}
use lq_os_lab.Kernel.Elf.Complete.{elf_load-ok}
use lq_os_lab.Kernel.Symbols.{load_user_symbols}
use lq_os_lab.Kernel.Symbols.Bounds.{IsBounded, Loaded, load_user_symbols-Loads}
use lq_os_lab.Kernel.Symbols.Complete.{SectionsLoad, load_user_symbols-ok}
use lq_os_lab.Kernel.Symbols.Held.{HasSymbols, Tables-HasSymbols}
use lq_os_lab.Kernel.Boot.{
  Command, is_err_value, set_mem, set_epc, closed_files, finish_load, load_elf, open_elf,
}

-- After a line that has a text, the rest goes on from a world that differs in the host calls.
pub sprint_then :
    {B : Type 0} (fmt : List ℕ) (vl : List Arg) (t : List ℕ) (w : World) (k : Unit {0} → Cmd B)
    → render fmt false false vl ≡ some t
    → (bytes : List ℕ) × (and_then (sprint fmt vl w) k ≡ k tt (logged bytes w))
sprint_then fmt vl t w k e =
    let (bytes, s) = sprint-ok fmt vl t w e in
    (bytes, and_then-ok (sprint fmt vl w) k tt (logged bytes w) s)

-- The frame, the memory and the symbols that the loader leaves, and the registers it does not touch.
pub record IsLoaded (elf : ElfFile) (h : ElfHeader) (m : Mem) (w v : World) : Type 0 where
  pub frame : v.user_app.trapframe ≡ record (w.user_app.trapframe) { epc = h.entry }
  pub same_csrs : v.csrs ≡ w.csrs
  pub memory : TableLoads elf h.phnum h.phoff m v.mem
  pub symbols : HasSymbols elf h v.user_app

entry_line :
    (e : ℕ)
    → render
        (text "Application program entry point (virtual address): 0x%lx\n")
        false
        false
        (num e ∷ [])
      ≡ some (
          text "Application program entry point (virtual address): 0x"
          ++ (hex_text 16 (e % u64_mod) ++ text "\n"))
unfolding render step_piece directive_piece hex_piece long_arg
entry_line e = refl

pub name_line :
    (t : List ℕ)
    → render (text "Application: %s\n") false false (str t ∷ [])
      ≡ some (text "Application: " ++ (t ++ text "\n"))
unfolding render step_piece directive_piece string_piece
name_line t = refl

-- A file whose descriptor can index `spike_fds` can be closed.
close-defined :
    (f : ℕ) (files : Files)
    → (files.files f).kfd < max_fds
    → (r : ℕ) × (files' : Files) × (spike_file_close (some f) files ≡ some (r, files'))
unfolding spike_file_close
close-defined f files h =
    let e : ltb (files.files f).kfd max_fds ≡ true = ground arith in
    elim (Bool-cases (same_file (files.fds (files.files f).kfd) (some f))) [
      | inl hit ↦ (
        0,
        spike_file_decref f (spike_file_decref f (set_fd (files.files f).kfd none files)),
        rw (e, hit) refl,
      )
      | inr miss ↦ (minus_one, spike_file_decref f files, rw (e, miss) refl)
    ]

finish_load-ok :
    (elf : ElfFile) (h : ElfHeader) (f : ℕ) (files : Files) (m : Mem) (w : World)
    → IsBounded w.user_app
    → SectionsLoad elf h
    → (files.files f).kfd < max_fds
    → TableLoads elf h.phnum h.phoff m w.mem
    → Succeeds (finish_load elf h f files w) (λ files' v. IsLoaded elf h m w v)
unfolding finish_load
finish_load-ok elf h f files m w b symbols fd table =
    let (u, e, tables) = load_user_symbols-ok elf h w symbols in
    let l : Loaded w u = rw e at (load_user_symbols-Loads elf h w b) in
    let (r, files', closes) = close-defined f files fd in
    let x = set_epc h.entry u in
    let same : u.user_app.trapframe ≡ w.user_app.trapframe =
      ap (λ (y : World). y.user_app.trapframe) l.only_process ∙ l.same_frame in
    let mem : u.mem ≡ w.mem = ap (λ (y : World). y.mem) l.only_process in
    let csrs : u.csrs ≡ w.csrs = ap (λ (y : World). y.csrs) l.only_process in
    let (bytes, s) =
      sprint_then (text "Application program entry point (virtual address): 0x%lx\n")
        (num x.user_app.trapframe.epc ∷ []) _ x (λ _. ok files') (entry_line h.entry) in
    (
      files',
      logged bytes x,
      and_then-ok (load_user_symbols elf h w) _ tt u e
          ∙ and_then-ok (closed_files (spike_file_close (some f) files) x) _ files' x
              (ap (λ o. closed_files o x) closes)
          ∙ s,
      record {
        frame = ap (λ (t : Trapframe). record t { epc = h.entry }) same;
        same_csrs = csrs;
        memory = subst (λ (n : Mem). TableLoads elf h.phnum h.phoff m n) (sym mem) table;
        symbols = Tables-HasSymbols elf h w u symbols tables;
      },
    )

-- The ELF header can be read and carries the magic number; so can the program headers, and the
-- segments that they describe can be loaded.
pub record IsSoundFile (elf : ElfFile) : Type 0 where
  pub header_read : elf.count header_size 0 ≡ header_size
  pub magic : (header_of (elf.bytes 0)).magic ≡ elf_magic
  pub readable :
      (i : ℕ)
      → i < (header_of (elf.bytes 0)).phnum
      → elf.count prog_header_size
          (int_off ((header_of (elf.bytes 0)).phoff + prog_header_size * i))
        ≡ prog_header_size
  pub sound :
      (i : ℕ)
      → i < (header_of (elf.bytes 0)).phnum
      → (header_at elf (header_of (elf.bytes 0)).phoff i).type ≡ elf_prog_load
      → IsSound elf (header_at elf (header_of (elf.bytes 0)).phoff i)
  pub symbols : SectionsLoad elf (header_of (elf.bytes 0))

-- No loadable segment reaches an address from `lo` up to `hi`.
abbrev pub Clear : ElfFile → ℕ → ℕ → Type 0
Clear elf lo hi =
    (i a : ℕ)
    → i < (header_of (elf.bytes 0)).phnum
    → InSegment (header_at elf (header_of (elf.bytes 0)).phoff i) a
    → lo ≤ a
    → a < hi
    → ⊥

-- The segments lie apart from the kernel, whose image ends at `kernel_end`, and from the process's
-- trap frame, neither of which the loader protects.
pub record SparesKernel (kernel_end : ℕ) (elf : ElfFile) : Type 0 where
  pub kernel : Clear elf dram_base kernel_end
  pub frame : Clear elf user_trap_frame (user_trap_frame + trapframe_size)

elf_init-ok : (elf : ElfFile) → IsSoundFile elf → elf_init elf ≡ (el_ok, header_of (elf.bytes 0))
unfolding elf_init
elf_init-ok elf s =
    let e1 : not (elf.count header_size 0 == header_size) ≡ false = ground (arith, s.header_read) in
    let e2 : not ((header_of (elf.bytes 0)).magic == elf_magic) ≡ false = ground (arith, s.magic) in
    rw (e1, e2) refl

load_elf-ok :
    (elf : ElfFile) (f : ℕ) (files : Files) (w : World)
    → IsBounded w.user_app
    → IsSoundFile elf
    → (files.files f).kfd < max_fds
    → Succeeds
        (load_elf elf f files w)
        (λ files' v. IsLoaded elf (header_of (elf.bytes 0)) w.mem w v)
unfolding load_elf
load_elf-ok elf f files w b s fd =
    let h = header_of (elf.bytes 0) in
    let (m, loads) = elf_load-ok elf h w.mem s.readable s.sound in
    let table : TableLoads elf h.phnum h.phoff w.mem m = rw loads at (elf_load-Loads elf h w.mem) in
    let (files', v, e, l) = finish_load-ok elf h f files w.mem (set_mem m w) b s.symbols fd table in
    (
      files',
      v,
      rw (elf_init-ok elf s, loads) e,
      record { frame = l.frame; same_csrs = l.same_csrs; memory = l.memory; symbols = l.symbols },
    )

-- The host opens the file: its answer is a descriptor that can index `spike_fds`.
pub record HostOpens (c : Command) : Type 0 where
  pub opened : c.open_result < 2 ^ 63
  pub in_range : c.open_result % u32_mod < max_fds

-- So it does, and a slot of the file table is free.
pub record CanOpen (c : Command) (files : Files) : Type 0 where
  pub opened : c.open_result < 2 ^ 63
  pub in_range : c.open_result % u32_mod < max_fds
  pub slot : ℕ
  pub is_slot : slot < max_files
  pub free : (files.files slot).refcnt ≡ 0

pub open_elf-ok :
    (c : Command) (files : Files) (w : World)
    → IsBounded w.user_app
    → IsSoundFile c.file
    → CanOpen c files
    → Succeeds
        (open_elf c files w)
        (λ files' v. IsLoaded c.file (header_of (c.file.bytes 0)) w.mem w v)
unfolding open_elf
open_elf-ok c files w b s can =
    answer (spike_file_openat c.open_result files).0 (spike_file_openat c.open_result files).1
      (openat-Opens c.open_result files)
  where
    answer :
        (o : Opened) (files' : Files)
        → Opens c.open_result files (o, files')
        → Succeeds
            (elim o [
              | file f ↦ load_elf c.file f files' w
              | error e ↦
                  if is_err_value e
                  then panic (text "Fail on openning the input application program.\n") [] w
                  else fault
            ])
            (λ files' v. IsLoaded c.file (header_of (c.file.bytes 0)) w.mem w v)
    answer (file f) files' opens = load_elf-ok c.file f files' w b s (
        let kfd : (files'.files f).kfd ≡ c.open_result % u32_mod =
          rw opens.2 (rw (==_self f) refl) in
        rw kfd can.in_range)
    answer (error e) files' opens = elim opens [
      | inl full ↦ absurd (full.1 can.slot (omega arith) can.is_slot can.free)
      | inr refused ↦ absurd (omega (arith, refused.1, can.opened))
    ]

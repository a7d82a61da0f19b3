-- ===== src/Kernel/Elf.antt =====
-- The ELF loader, kernel/elf.c, over a byte-level host file. What `spike_file_pread` returns is the
-- host's: an `ElfFile` answers a read of `nb` bytes at `offset` with how many bytes it gave and
-- what they are. The headers are read field by field from their little-endian bytes.
pub mod Segment
pub mod Load
pub mod Complete
use lq_os_lab.Base.{
  ℕ, zero, suc, ◌+◌, ◌-◌, ◌*◌, ◌/◌, ◌%◌, ◌^◌, Bool, true, false, not, Option, none, some, List, [],
  ◌∷◌, ltb, leb, ◌==◌, if◌then◌else◌, text,
}
use lq_os_lab.Base.Memory.{Mem, u64_mod, u32_mod, load64}
use lq_os_lab.World.{ElfSymbol, Process, World, Run, ok, Cmd, pure, ◌>>=◌, ◌>>◌, and_then}
use lq_os_lab.Spike.Utils.{panic}

-- `pread nb offset` is the return value, 64 bits, and the bytes that were stored.
pub record ElfFile : Type 0 where
  pub count : ℕ → ℕ → ℕ
  pub bytes : ℕ → ℕ → ℕ

-- `count nb offset` and the byte at index `i` of the buffer, `bytes offset i`.
abbrev pub u16_at : (ℕ → ℕ) → ℕ → ℕ
u16_at b i = b i + 2 ^ 8 * b (i + 1)

abbrev pub u32_at : (ℕ → ℕ) → ℕ → ℕ
u32_at b i = b i + 2 ^ 8 * b (i + 1) + 2 ^ 16 * b (i + 2) + 2 ^ 24 * b (i + 3)

-- The fields of `elf_header` that the loader uses, at their offsets in the 64-byte structure.
pub record ElfHeader : Type 0 where
  pub magic : ℕ
  pub entry : ℕ
  pub phoff : ℕ
  pub shoff : ℕ
  pub phnum : ℕ
  pub shentsize : ℕ
  pub shnum : ℕ

abbrev pub header_size : ℕ
header_size = 64

unfoldable pub header_of : (ℕ → ℕ) → ElfHeader
header_of b = record {
  magic = u32_at b 0;
  entry = load64 b 24;
  phoff = load64 b 32;
  shoff = load64 b 40;
  phnum = u16_at b 56;
  shentsize = u16_at b 58;
  shnum = u16_at b 60;
}

pub record ElfProgHeader : Type 0 where
  pub type : ℕ
  pub off : ℕ
  pub vaddr : ℕ
  pub filesz : ℕ
  pub memsz : ℕ

abbrev pub prog_header_size : ℕ
prog_header_size = 56

unfoldable pub prog_header_of : (ℕ → ℕ) → ElfProgHeader
prog_header_of b = record {
  type = u32_at b 0;
  off = load64 b 8;
  vaddr = load64 b 16;
  filesz = load64 b 32;
  memsz = load64 b 40;
}

pub record ElfSectionHeader : Type 0 where
  pub type : ℕ
  pub off : ℕ
  pub size : ℕ
  pub link : ℕ
  pub entsize : ℕ

abbrev pub section_header_size : ℕ
section_header_size = 64

unfoldable pub section_header_of : (ℕ → ℕ) → ElfSectionHeader
section_header_of b = record {
  type = u32_at b 4;
  off = load64 b 24;
  size = load64 b 32;
  link = u32_at b 40;
  entsize = load64 b 56;
}

abbrev pub symbol_size : ℕ
symbol_size = 24

-- Entry `i` of a symbol table.
unfoldable pub symbol_of : (ℕ → ℕ) → ℕ → ElfSymbol
symbol_of b i = record {
  name = u32_at b (symbol_size * i);
  info = b (symbol_size * i + 4);
  other = b (symbol_size * i + 5);
  shndx = u16_at b (symbol_size * i + 6);
  value = load64 b (symbol_size * i + 8);
  size = load64 b (symbol_size * i + 16);
}

abbrev pub elf_magic : ℕ
elf_magic = 0x464C457F

abbrev pub elf_prog_load : ℕ
elf_prog_load = 1

abbrev pub sht_symtab : ℕ
sht_symtab = 2

abbrev pub max_user_syms : ℕ
max_user_syms = 512

abbrev pub max_user_strtab : ℕ
max_user_strtab = 8 * 1024

pub data ElfStatus : Type 0 where
  el_ok el_eio el_enomem el_notelf el_err : ElfStatus

-- `elf_init`: the status, and the header that was read.
unfoldable pub elf_init : ElfFile → ElfStatus × ElfHeader
elf_init f =
    let h = header_of (f.bytes 0) in
    if not (f.count header_size 0 == header_size)
    then (el_eio, h)
    else if not (h.magic == elf_magic)
    then (el_notelf, h)
    else (el_ok, h)

-- `elf_alloc_mb` gives the virtual address itself, in Bare mode.
unfoldable pub elf_alloc_mb : ℕ → ℕ → ℕ → ℕ
elf_alloc_mb elf_pa elf_va size = elf_va

-- `n` bytes of `b` at `dest`.
unfoldable pub store_bytes : Mem → ℕ → ℕ → (ℕ → ℕ) → Mem
store_bytes m dest n b a =
    if leb dest a then (if ltb a (dest + n) then b (a - dest) else m a) else m a

-- A read into memory: the bytes that the host says it gave.
unfoldable pub pread_to : ElfFile → ℕ → ℕ → ℕ → Mem → Mem
pread_to f dest nb offset m = store_bytes m dest (f.count nb offset) (f.bytes offset)

-- `off` is an `int`: 32 bits, extended to 64 where it is passed as an offset.
unfoldable pub int_off : ℕ → ℕ
int_off off =
    if ltb (off % u32_mod) (2 ^ 31) then off % u32_mod else off % u32_mod + u64_mod - u32_mod

-- The tests on one program header, in the order of the code, and the read of its segment.
unfoldable pub load_segment : ElfFile → ElfProgHeader → Mem → ElfStatus × Mem
load_segment f ph m =
    if not (ph.type == elf_prog_load)
    then (el_ok, m)
    else if ltb ph.memsz ph.filesz
    then (el_err, m)
    else if ltb ((ph.vaddr + ph.memsz) % u64_mod) ph.vaddr
    then (el_err, m)
    else (let dest = elf_alloc_mb ph.vaddr ph.vaddr ph.memsz in
        let m' = pread_to f dest ph.memsz ph.off m in
        if f.count ph.memsz ph.off == ph.memsz then (el_ok, m') else (el_eio, m'))

-- The loop with `k` program headers left; `off` is where the next one stands.
unfoldable pub elf_load_loop : ElfFile → ℕ → ℕ → Mem → ElfStatus × Mem
elf_load_loop f zero off m = (el_ok, m)
elf_load_loop f (suc k) off m =
    let (status, m') = load_segment f (prog_header_of (f.bytes (int_off off))) m in
    let go_on : ElfStatus × Mem = elim status [
      | el_ok ↦ elf_load_loop f k (off + prog_header_size) m'
      | other ↦ (other, m')
    ] in
    if not (f.count prog_header_size (int_off off) == prog_header_size) then (el_eio, m) else go_on

unfoldable pub elf_load : ElfFile → ElfHeader → Mem → ElfStatus × Mem
elf_load f h m = elf_load_loop f h.phnum h.phoff m

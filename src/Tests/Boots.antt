-- ===== src/Tests/Boots.antt =====
-- The host interface, and starting a sample program.
use lq_os_lab.Base.{
  ℕ, ◌+◌, ◌-◌, ◌<◌, ◌≤◌, ◌≡◌, refl, arith, inr, false, List, [], ◌∷◌, ◌==◌, if◌then◌else◌, get_or,
}
use lq_os_lab.Base.Memory.{Mem, load64, IsBytes}
use lq_os_lab.World.{World, ok}
use lq_os_lab.Spike.Htif.{Device, Host, Frontend, Service, magic_words, frontend_syscall, returned}
use lq_os_lab.Spike.Htif.Answers.{Serves, finished, frontend_syscall-returns}
use lq_os_lab.Kernel.Elf.{
  ElfFile, ElfHeader, header_of, prog_header_of, section_header_of, int_off, store_bytes,
}
use lq_os_lab.Kernel.Symbols.{section_offset, load_user_symbols}
use lq_os_lab.Kernel.Symbols.Complete.{IsAccepted, section_at}
use lq_os_lab.Kernel.Symbols.Held.{IsFirstTable}
use lq_os_lab.Kernel.Symbols.Overrun.{load_user_symbols-overrun}
use lq_os_lab.Kernel.Boot.{Command, arg_buf_size, set_mem, parse_args}
use lq_os_lab.Kernel.Boot.Args.{Shifted, parse_args-Shifted}
use lq_os_lab.Kernel.Boot.Load.{IsSoundFile, SparesKernel}
use lq_os_lab.Kernel.Elf.Segment.{InSegment}
use lq_os_lab.Kernel.Elf.Load.{header_at}
use mathlib.Core.Path.{subst}
use lq_os_lab.Tests.Samples.{user_world}

-- A host that answers each command at once, with the command itself.
abbrev echo : Host
echo t c f = if c == 0 then (0, f) else (0, c)

echo-Serves : Serves echo (λ c. c)
echo-Serves = record {
  idle = λ t. refl;
  keeps = λ t c n. inr (let e : (c == 0) ≡ false = ground arith in rw e refl);
  soon = λ t c n. (0, let e : (c == 0) ≡ false = ground arith in rw e refl);
  answers = λ c n. n;
  same_dev = λ c n. refl;
  same_cmd = λ c n. refl;
}

abbrev idle : Device
idle = record { tohost = 0; fromhost = 0; htif_console_buf = 0; htif_lock = 0; time = 0 }

-- A frontend that answers with the number of the call.
abbrev number : Service
number words = words 0

abbrev frontend : Frontend
frontend = record { lock = 0; magic_mem = λ i. 0; device = idle }

frontend_syscall-returns_example :
    (polls t : ℕ) × (frontend_syscall echo number polls 0x80006000 64 1 2 3 4 5 6 7 frontend
      ≡ returned (number (magic_words 64 1 2 3 4 5 6 7)) (
          finished
            (number (magic_words 64 1 2 3 4 5 6 7))
            (magic_words 64 1 2 3 4 5 6 7)
            (record idle { tohost = 0; fromhost = 0; htif_lock = 0; time = t })))
frontend_syscall-returns_example =
    frontend_syscall-returns echo (λ c. c) number 0x80006000 64 1 2 3 4 5 6 7 frontend echo-Serves
      (λ e. absurd (omega (arith, e))) (omega arith) refl refl refl refl

-- A program of one segment and no sections: the ELF header and one program header.
abbrev program_bytes : List ℕ
program_bytes =
    0x7f ∷ 0x45 ∷ 0x4c ∷ 0x46 ∷ 2 ∷ 1 ∷ 1 ∷ 0 ∷ 0 ∷ 0 ∷ 0 ∷ 0 ∷ 0 ∷ 0 ∷ 0 ∷ 0 ∷ 2 ∷ 0 ∷ 243 ∷ 0 ∷ 1
    ∷ 0 ∷ 0 ∷ 0 ∷ 0 ∷ 0 ∷ 0 ∷ 0x81 ∷ 0 ∷ 0 ∷ 0 ∷ 0 ∷ 64 ∷ 0 ∷ 0 ∷ 0 ∷ 0 ∷ 0 ∷ 0 ∷ 0 ∷ 0 ∷ 0 ∷ 0 ∷ 0
    ∷ 0 ∷ 0 ∷ 0 ∷ 0 ∷ 0 ∷ 0 ∷ 0 ∷ 0 ∷ 64 ∷ 0 ∷ 56 ∷ 0 ∷ 1 ∷ 0 ∷ 64 ∷ 0 ∷ 0 ∷ 0 ∷ 0 ∷ 0 ∷ 1 ∷ 0 ∷ 0
    ∷ 0 ∷ 5 ∷ 0 ∷ 0 ∷ 0 ∷ 0 ∷ 0 ∷ 0 ∷ 0 ∷ 0 ∷ 0 ∷ 0 ∷ 0 ∷ 0 ∷ 0 ∷ 0 ∷ 0x81 ∷ 0 ∷ 0 ∷ 0 ∷ 0 ∷ 0 ∷ 0
    ∷ 0 ∷ 0 ∷ 0 ∷ 0 ∷ 0 ∷ 0 ∷ 8 ∷ 0 ∷ 0 ∷ 0 ∷ 0 ∷ 0 ∷ 0 ∷ 0 ∷ 16 ∷ 0 ∷ 0 ∷ 0 ∷ 0 ∷ 0 ∷ 0 ∷ 0 ∷ []

abbrev pub program : ElfFile
program = record {
  count = λ nb offset. nb;
  bytes = λ offset i. get_or program_bytes (offset + i) 0;
}

-- The command line `pke a`: two strings, and the pointer to the second one, which stands behind
-- the buffer.
abbrev pub command : Command
command = record {
  main_result = 0;
  main_bytes = λ i. if i == 0 then 2 else if i == 17 then 2 else 0;
  open_result = 3;
  file = program;
}

abbrev start : World
start = record user_world { mem = λ a. if a == 512 then b'a' else 0 }

command-IsBytes : IsBytes (store_bytes start.mem 0 arg_buf_size command.main_bytes)
unfolding store_bytes
command-IsBytes a = ground arith

parse_args-Shifted_example :
    (m : Mem) × (parse_args command 0 start
      ≡ ok
          (load64 (store_bytes start.mem 0 arg_buf_size command.main_bytes) 0 - 1)
          (set_mem m start))
    × Shifted 0
        (load64 (store_bytes start.mem 0 arg_buf_size command.main_bytes) 0 - 1)
        0
        (store_bytes start.mem 0 arg_buf_size command.main_bytes)
        m
unfolding store_bytes load64
parse_args-Shifted_example =
    parse_args-Shifted command 0 start command-IsBytes refl (omega arith) (omega arith)

pub program-IsSoundFile : IsSoundFile program
unfolding header_of prog_header_of int_off load64
program-IsSoundFile = record {
  header_read = refl;
  magic = refl;
  readable = λ i h. refl;
  sound = λ i h t.
      let z : i ≡ 0 = omega arith in
      rw z (record { covers_file = omega arith; no_wrap = omega arith; whole = refl });
  symbols = record {
    readable = λ k h. absurd (omega arith);
    tables = λ k h t. absurd (omega arith);
  };
}

program-segment :
    (i a : ℕ)
    → i < 1
    → InSegment (header_at program (header_of (program.bytes 0)).phoff i) a
    → (0x81000000 ≤ a) × (a < 0x81000010)
unfolding header_of prog_header_of int_off load64
program-segment i a lt c =
    let z : i ≡ 0 = omega arith in
    let d : InSegment (header_at program (header_of (program.bytes 0)).phoff 0) a =
      subst (λ j. InSegment (header_at program (header_of (program.bytes 0)).phoff j) a) z c in
    (omega (arith, d.from), omega (arith, d.to))

pub program-SparesKernel : SparesKernel 0x80100000 program
unfolding header_of
program-SparesKernel = record {
  kernel = λ i a lt c lo hi. omega (arith, program-segment i a lt c);
  frame = λ i a lt c lo hi. omega (arith, program-segment i a lt c);
}

-- One section: a symbol table of one entry, which is its own string table.
abbrev section_bytes : List ℕ
section_bytes =
    0 ∷ 0 ∷ 0 ∷ 0 ∷ 2 ∷ 0 ∷ 0 ∷ 0 ∷ 0 ∷ 0 ∷ 0 ∷ 0 ∷ 0 ∷ 0 ∷ 0 ∷ 0 ∷ 0 ∷ 0 ∷ 0 ∷ 0 ∷ 0 ∷ 0 ∷ 0 ∷ 0
    ∷ 64 ∷ 0 ∷ 0 ∷ 0 ∷ 0 ∷ 0 ∷ 0 ∷ 0 ∷ 24 ∷ 0 ∷ 0 ∷ 0 ∷ 0 ∷ 0 ∷ 0 ∷ 0 ∷ 0 ∷ 0 ∷ 0 ∷ 0 ∷ 0 ∷ 0 ∷ 0
    ∷ 0 ∷ 0 ∷ 0 ∷ 0 ∷ 0 ∷ 0 ∷ 0 ∷ 0 ∷ 0 ∷ 24 ∷ 0 ∷ 0 ∷ 0 ∷ 0 ∷ 0 ∷ 0 ∷ 0 ∷ []

abbrev with_section : ElfFile
with_section = record {
  count = λ nb offset. nb;
  bytes = λ offset i. get_or section_bytes (offset + i) 0;
}

abbrev one_section : ElfHeader
one_section = record {
  magic = 0x464C457F;
  entry = 0;
  phoff = 0;
  shoff = 0;
  phnum = 0;
  shentsize = 64;
  shnum = 1;
}

-- The same section with 12311 bytes, 512 entries and 23 bytes more, linked to an empty string table.
abbrev long_section_bytes : List ℕ
long_section_bytes =
    0 ∷ 0 ∷ 0 ∷ 0 ∷ 2 ∷ 0 ∷ 0 ∷ 0 ∷ 0 ∷ 0 ∷ 0 ∷ 0 ∷ 0 ∷ 0 ∷ 0 ∷ 0 ∷ 0 ∷ 0 ∷ 0 ∷ 0 ∷ 0 ∷ 0 ∷ 0 ∷ 0
    ∷ 64 ∷ 0 ∷ 0 ∷ 0 ∷ 0 ∷ 0 ∷ 0 ∷ 0 ∷ 23 ∷ 48 ∷ 0 ∷ 0 ∷ 0 ∷ 0 ∷ 0 ∷ 0 ∷ 1 ∷ 0 ∷ 0 ∷ 0 ∷ 0 ∷ 0 ∷ 0
    ∷ 0 ∷ 0 ∷ 0 ∷ 0 ∷ 0 ∷ 0 ∷ 0 ∷ 0 ∷ 0 ∷ 24 ∷ 0 ∷ 0 ∷ 0 ∷ 0 ∷ 0 ∷ 0 ∷ 0 ∷ []

abbrev with_long_section : ElfFile
with_long_section = record {
  count = λ nb offset. nb;
  bytes = λ offset i. get_or long_section_bytes (offset + i) 0;
}

long_section-IsAccepted :
    IsAccepted with_long_section one_section (section_at with_long_section one_section 0)
unfolding section_header_of section_offset int_off load64
long_section-IsAccepted = record {
  link_read = refl;
  strings_fit = omega arith;
  strings_read = refl;
  entries = refl;
  few = omega arith;
  symbols_read = refl;
}

long_section-IsFirstTable : IsFirstTable with_long_section one_section 0
unfolding section_header_of section_offset int_off load64
long_section-IsFirstTable = (omega arith, refl, λ j lt. absurd (omega arith))

long_section-long : 12296 + 14 < (section_at with_long_section one_section 0).size
unfolding section_header_of section_offset int_off load64
long_section-long = omega arith

load_user_symbols-overrun_example :
    (u : World) × (load_user_symbols with_long_section one_section user_world ≡ ok tt u)
    × (u.user_app.strtab 14
        ≡ with_long_section.bytes (section_at with_long_section one_section 0).off (12296 + 14))
    × (14 < 15)
load_user_symbols-overrun_example =
    load_user_symbols-overrun with_long_section one_section user_world 0 14 (λ j lt. refl)
      long_section-IsFirstTable long_section-IsAccepted long_section-long

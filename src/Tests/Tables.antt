-- ===== src/Tests/Tables.antt =====
-- Program headers, symbol tables and file tables.
use lq_os_lab.Base.{ℕ, ◌+◌, ◌<◌, ◌≡◌, refl, arith, some, List, [], ◌∷◌, get_or}
use lq_os_lab.Base.Memory.{Mem, load64}
use lq_os_lab.Spike.File.{
  Files, minus_one, initial, set_fd, set_file, spike_file_openat, spike_file_close, spike_file_init,
}
use lq_os_lab.Spike.File.Refs.{close-leaks, Opens, openat-Opens}
use lq_os_lab.Spike.File.Standard.{IsStandard, spike_file_init-IsStandard}
use lq_os_lab.Kernel.Elf.{ElfFile, ElfHeader, el_ok, prog_header_of, int_off, elf_load}
use lq_os_lab.Kernel.Elf.Segment.{IsSound, OnOk}
use lq_os_lab.Kernel.Elf.Load.{TableLoads, header_at, elf_load-Loads}
use lq_os_lab.Kernel.Elf.Complete.{elf_load-ok}
use lq_os_lab.Kernel.Symbols.{load_user_symbols}
use lq_os_lab.Kernel.Symbols.Bounds.{Loads, load_user_symbols-Loads}
use lq_os_lab.Tests.Samples.{user_world}

-- One loadable segment of 16 bytes at address 0, of which 8 are in the file.
abbrev one_segment : List ℕ
one_segment =
    1 ∷ 0 ∷ 0 ∷ 0 ∷ 5 ∷ 0 ∷ 0 ∷ 0 ∷ 0 ∷ 0 ∷ 0 ∷ 0 ∷ 0 ∷ 0 ∷ 0 ∷ 0 ∷ 0 ∷ 0 ∷ 0 ∷ 0 ∷ 0 ∷ 0 ∷ 0 ∷ 0
    ∷ 0 ∷ 0 ∷ 0 ∷ 0 ∷ 0 ∷ 0 ∷ 0 ∷ 0 ∷ 8 ∷ 0 ∷ 0 ∷ 0 ∷ 0 ∷ 0 ∷ 0 ∷ 0 ∷ 16 ∷ 0 ∷ 0 ∷ 0 ∷ 0 ∷ 0 ∷ 0 ∷ 0
    ∷ []

-- A host file whose bytes are the header's, and that answers every read in full.
abbrev whole_file : ElfFile
whole_file = record {
  count = λ nb offset. nb;
  bytes = λ offset i. get_or one_segment (offset + i) 0;
}

abbrev header : ElfHeader
header = record {
  magic = 0x464C457F;
  entry = 0;
  phoff = 0;
  shoff = 0;
  phnum = 1;
  shentsize = 64;
  shnum = 1;
}

abbrev empty_memory : Mem
empty_memory a = 0

elf_load-Loads_example :
    OnOk (TableLoads whole_file 1 0 empty_memory) (elf_load whole_file header empty_memory)
elf_load-Loads_example = elf_load-Loads whole_file header empty_memory

sample-IsSound : (i : ℕ) → i < 1 → IsSound whole_file (header_at whole_file 0 i)
unfolding prog_header_of int_off load64
sample-IsSound i h =
    let z : i ≡ 0 = omega arith in
    rw z (record { covers_file = omega arith; no_wrap = omega arith; whole = refl })

elf_load-ok_example : (m' : Mem) × (elf_load whole_file header empty_memory ≡ (el_ok, m'))
elf_load-ok_example =
    elf_load-ok whole_file header empty_memory (λ i h. refl) (λ i h t. sample-IsSound i h)

load_user_symbols-Loads_example : Loads user_world (load_user_symbols whole_file header user_world)
load_user_symbols-Loads_example =
    load_user_symbols-Loads whole_file header user_world
      (record { symbols = omega arith; strings = omega arith })

openat-Opens_example : Opens 5 initial (spike_file_openat 5 initial)
openat-Opens_example = openat-Opens 5 initial

-- Slot 3 holds host descriptor 5.
abbrev opened : Files
opened = set_file 3 (record { kfd = 5; refcnt = 3 }) initial

abbrev bound : Files
bound = set_fd 5 (some 3) opened

close-leaks_example :
    (s' : Files) × (spike_file_close (some 3) opened ≡ some (minus_one, s'))
    × ((s'.files 3).refcnt ≡ 2)
    × (s'.closed ≡ [])
close-leaks_example =
    close-leaks 3 opened (record { refs = refl; in_range = omega arith }) (λ e. ground arith)

initial-IsStandard : IsStandard 0 initial
initial-IsStandard = record {
  opened = λ j lt. absurd (omega arith);
  bound = λ j lt. absurd (omega arith);
  free = λ j lo hi. refl;
  unbound = λ j lo hi. refl;
}

spike_file_init-IsStandard_example :
    (s' : Files) × (spike_file_init initial ≡ some s') × IsStandard 3 s' × (s'.closed ≡ [])
spike_file_init-IsStandard_example = spike_file_init-IsStandard initial initial-IsStandard

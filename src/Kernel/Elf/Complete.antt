-- ===== src/Kernel/Elf/Complete.antt =====
-- When the loader succeeds: on every table of program headers that can be read and is sound.
use lq_os_lab.Base.{
  ℕ, zero, suc, ◌+◌, ◌*◌, ◌%◌, ◌<◌, ◌≡◌, refl, true, false, inl, inr, arith, ltb, ◌==◌, Bool-cases,
  ◌∙◌, ap,
}
use lq_os_lab.Base.Memory.{Mem, u64_mod}
use lq_os_lab.Kernel.Elf.{
  ElfFile, ElfHeader, ElfProgHeader, ElfStatus, el_ok, elf_prog_load, prog_header_size,
  prog_header_of, elf_alloc_mb, pread_to, int_off, load_segment, elf_load_loop, elf_load,
}
use lq_os_lab.Kernel.Elf.Segment.{IsSound}
use lq_os_lab.Kernel.Elf.Load.{header_at}

load_segment-ok :
    (f : ElfFile) (ph : ElfProgHeader) (m : Mem)
    → (ph.type ≡ elf_prog_load → IsSound f ph)
    → (m' : Mem) × (load_segment f ph m ≡ (el_ok, m'))
unfolding load_segment
load_segment-ok f ph m sound = elim (Bool-cases (ph.type == elf_prog_load)) [
  | inr other ↦ (m, rw other refl)
  | inl load ↦
      let s = sound (ground arith) in
      let e1 : ltb ph.memsz ph.filesz ≡ false = ground (arith, s.covers_file) in
      let e2 : ltb ((ph.vaddr + ph.memsz) % u64_mod) ph.vaddr ≡ false = ground (arith, s.no_wrap) in
      let e3 : (f.count ph.memsz ph.off == ph.memsz) ≡ true = ground (arith, s.whole) in
      (
        pread_to f (elf_alloc_mb ph.vaddr ph.vaddr ph.memsz) ph.memsz ph.off m,
        rw (load, e1, e2, e3) refl,
      )
]

loop-step :
    (f : ElfFile) (k off : ℕ) (m m₁ : Mem)
    → f.count prog_header_size (int_off off) ≡ prog_header_size
    → load_segment f (prog_header_of (f.bytes (int_off off))) m ≡ (el_ok, m₁)
    → elf_load_loop f (suc k) off m ≡ elf_load_loop f k (off + prog_header_size) m₁
unfolding elf_load_loop
loop-step f k off m m₁ r e =
    let read : (f.count prog_header_size (int_off off) == prog_header_size) ≡ true = ground arith in
    rw (read, e) (ap (λ (x : ElfStatus × Mem). elf_load_loop f k (off + prog_header_size) x.1) e)

elf_load_loop-ok :
    (f : ElfFile) (k off : ℕ) (m : Mem)
    → ((i : ℕ)
        → i < k
        → f.count prog_header_size (int_off (off + prog_header_size * i)) ≡ prog_header_size)
    → ((i : ℕ) → i < k → (header_at f off i).type ≡ elf_prog_load → IsSound f (header_at f off i))
    → (m' : Mem) × (elf_load_loop f k off m ≡ (el_ok, m'))
elf_load_loop-ok f zero off m readable sound = (m, unfold elf_load_loop in refl)
elf_load_loop-ok f (suc k) off m readable sound =
    let head : off + prog_header_size * 0 ≡ off = omega arith in
    let shift : (i : ℕ)
        → off + prog_header_size * suc i ≡ off + prog_header_size + prog_header_size * i =
      λ i. omega arith in
    let (m₁, e) =
      load_segment-ok f (prog_header_of (f.bytes (int_off off))) m
        (rw head at (sound 0 (omega arith))) in
    let (m₂, e') =
      elf_load_loop-ok f k (off + prog_header_size) m₁
        (λ i h. rw (shift i) at (readable (suc i) (omega arith)))
        (λ i h. rw (shift i) at (sound (suc i) (omega arith))) in
    (m₂, loop-step f k off m m₁ (rw head at (readable 0 (omega arith))) e ∙ e')

-- The loader succeeds on every file whose program headers can all be read and whose loadable
-- segments are at least as long in memory as in the file, do not wrap round the address space and
-- can be read whole.
pub elf_load-ok :
    (f : ElfFile) (h : ElfHeader) (m : Mem)
    → ((i : ℕ)
        → i < h.phnum
        → f.count prog_header_size (int_off (h.phoff + prog_header_size * i)) ≡ prog_header_size)
    → ((i : ℕ)
        → i < h.phnum
        → (header_at f h.phoff i).type ≡ elf_prog_load
        → IsSound f (header_at f h.phoff i))
    → (m' : Mem) × (elf_load f h m ≡ (el_ok, m'))
unfolding elf_load
elf_load-ok f h m readable sound = elf_load_loop-ok f h.phnum h.phoff m readable sound

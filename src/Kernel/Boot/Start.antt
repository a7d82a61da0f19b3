-- ===== src/Kernel/Boot/Start.antt =====
-- From the start of the kernel to the first instruction of the process.
use mathlib.Core.Path.{fun_ext, subst}
use lq_os_lab.Base.{
  ℕ, ◌+◌, ◌-◌, ◌*◌, ◌<◌, ◌≤◌, ◌≡◌, inr, refl, sym, false, some, List, [], ◌∷◌, arith, ◌==◌, length,
  text, ap, ◌∙◌,
}
use lq_os_lab.Base.Memory.{Mem, IsBytes, load64}
use lq_os_lab.Util.Print.{str}
use lq_os_lab.Util.Print.Spec.{render, step_piece}
use lq_os_lab.Util.Strings.{max_string, chars}
use lq_os_lab.Util.Strings.Lexical.{StandsAt}
use lq_os_lab.Util.Strings.Chars.{chars-text}
use lq_os_lab.Hart.{
  Csrs, zero_regs, user_stack, user_kstack, user_trap_frame, dram_base, trapframe_size,
}
use lq_os_lab.World.{Trapframe, user_app_ptr, World, ok, and_then, defined}
use lq_os_lab.World.Runs.{Succeeds, and_then-ok}
use lq_os_lab.Spike.Utils.{sprint}
use lq_os_lab.Spike.Utils.Console.{logged}
use lq_os_lab.Spike.File.{Files}
use lq_os_lab.Kernel.Elf.{ElfFile, ElfHeader, header_of, store_bytes}
use lq_os_lab.Kernel.Elf.Load.{TableLoads}
use lq_os_lab.Kernel.Symbols.Bounds.{IsBounded}
use lq_os_lab.Kernel.Process.{Image, prepare, return_to_user, sret, switch_to}
use lq_os_lab.Kernel.Process.Resume.{
  IsReady, resumed, resumed-pc, resumed-regs, resumed-keeps, resumed-IsReady,
}
use lq_os_lab.Kernel.Symbols.Held.{HasSymbols}
use lq_os_lab.Kernel.Boot.{
  Command, arg_buf_size, set_mem, parse_args, open_elf, load_bincode_from_host_elf,
  load_user_program, s_start,
}
use lq_os_lab.Kernel.Boot.Args.{Shifted, parse_args-Shifted}
use lq_os_lab.Kernel.Boot.Load.{
  sprint_then, IsLoaded, IsSoundFile, SparesKernel, CanOpen, name_line, open_elf-ok,
}

-- `args` is apart from the kernel's data and `name` stands behind the pointers that move, as the
-- host leaves its strings.
pub record NamesProgram (c : Command) (args : ℕ) (m : Mem) (name : List ℕ) : Type 0 where
  pub answered : c.main_result ≡ 0
  pub bytes : IsBytes (store_bytes m args arg_buf_size c.main_bytes)
  pub one_argument : load64 (store_bytes m args arg_buf_size c.main_bytes) args ≡ 2
  pub behind : args + 8 ≤ load64 (store_bytes m args arg_buf_size c.main_bytes) (args + 16)
  pub stands :
      StandsAt
        (λ i.
          store_bytes m args arg_buf_size c.main_bytes
            (load64 (store_bytes m args arg_buf_size c.main_bytes) (args + 16) + i))
        0
        name
  pub short : length name < max_string

StandsAt-same :
    (p q : ℕ → ℕ) (i : ℕ) (t : List ℕ) → ((j : ℕ) → q j ≡ p j) → StandsAt p i t → StandsAt q i t
StandsAt-same p q i t e s = subst (λ (r : ℕ → ℕ). StandsAt r i t) (sym (fun_ext e)) s

first-moved :
    (args k : ℕ) (m m' : Mem)
    → 1 ≤ k
    → Shifted args k 0 m m'
    → load64 m' args ≡ load64 m (args + 16)
first-moved args k m m' h s =
    let e : args ≡ args + 8 * (0 + 0) = omega arith in
    let f : args + 8 * (2 + 0 + 0) ≡ args + 16 = omega arith in
    ap (load64 m') e ∙ (s.moved 0 h ∙ ap (load64 m) f)

load_bincode-ok :
    (c : Command) (args : ℕ) (name : List ℕ) (files : Files) (w : World)
    → IsBounded w.user_app
    → NamesProgram c args w.mem name
    → IsSoundFile c.file
    → CanOpen c files
    → Succeeds
        (load_bincode_from_host_elf c args files w)
        (λ files' v. (m : Mem) × IsLoaded c.file (header_of (c.file.bytes 0)) m w v)
unfolding load_bincode_from_host_elf
load_bincode-ok c args name files w b n s can =
    let filled = store_bytes w.mem args arg_buf_size c.main_bytes in
    let one = n.one_argument in
    let (m, parses, shifted) =
      parse_args-Shifted c args w n.bytes n.answered (omega (arith, one)) (omega (arith, one)) in
    let some_argument : (load64 filled args - 1 == 0) ≡ false = ground (arith, one) in
    let pointer : load64 m args ≡ load64 filled (args + 16) =
      first-moved args (load64 filled args - 1) filled m (omega (arith, one)) shifted in
    let same : (j : ℕ) → m (load64 m args + j) ≡ filled (load64 filled (args + 16) + j) = λ j.
      ap (λ p. m (p + j)) pointer
      ∙ shifted.kept (load64 filled (args + 16) + j) (inr (omega (arith, n.behind, one))) in
    let reads : chars (λ i. m (load64 m args + i)) ≡ some name =
      chars-text _ name (StandsAt-same _ _ 0 name same n.stands) n.short in
    let (bytes, s1) =
      sprint_then (text "Application: %s\n") (str name ∷ []) _ (set_mem m w) (λ _. open_elf c files)
        (name_line name) in
    let (files', v, e, l) = open_elf-ok c files (logged bytes (set_mem m w)) b s can in
    (
      files',
      v,
      and_then-ok (parse_args c args w) _ (load64 filled args - 1) (set_mem m w) parses
          ∙ (rw some_argument refl
              ∙ (ap
                    (λ o. and_then (defined o (set_mem m w)) (λ t u.
                      and_then (sprint (text "Application: %s\n") (str t ∷ []) u)
                        λ _. open_elf c files))
                    reads
                  ∙ (s1 ∙ e))),
      (
        m,
        record { frame = l.frame; same_csrs = l.same_csrs; memory = l.memory; symbols = l.symbols },
      ),
    )

-- The process is about to run its first instruction: the trap set-up is in place, the processor is
-- at the entry point with cleared registers but the stack pointer, without address translation,
-- memory, as it was `before` loading, holds the program, the kernel's part of it and the trap frame's
-- are as before, and the process holds the file's symbols.
pub record IsStarted (img : Image) (kernel_end : ℕ) (elf : ElfFile) (h : ElfHeader) (v : World)
    : Type 0 where
  pub ready : IsReady img v
  pub entry : v.pc ≡ h.entry
  pub registers : v.regs ≡ record (zero_regs) { sp = user_stack }
  pub no_translation : v.csrs.satp ≡ 0
  pub before : Mem
  pub program : TableLoads elf h.phnum h.phoff before v.mem
  pub kernel_kept : (a : ℕ) → dram_base ≤ a → a < kernel_end → v.mem a ≡ before a
  pub frame_kept :
      (a : ℕ) → user_trap_frame ≤ a → a < user_trap_frame + trapframe_size → v.mem a ≡ before a
  pub symbols : HasSymbols elf h v.user_app

enter_line :
    render (text "Enter supervisor mode...\n") false false []
    ≡ some (text "Enter supervisor mode...\n")
unfolding render step_piece
enter_line = refl

switch_line :
    render (text "Switch to user mode...\n") false false [] ≡ some (text "Switch to user mode...\n")
unfolding render step_piece
switch_line = refl

switch-started : (img : Image) (w : World) → switch_to img user_app_ptr w ≡ ok tt (resumed img w)
unfolding switch_to
switch-started img w = refl

resumed-HasSymbols :
    (img : Image) (f : ElfFile) (h : ElfHeader) (w : World)
    → HasSymbols f h w.user_app
    → HasSymbols f h (resumed img w).user_app
unfolding return_to_user prepare sret
resumed-HasSymbols img f h w s = s

resumed-satp : (img : Image) (w : World) → (resumed img w).csrs.satp ≡ w.csrs.satp
unfolding return_to_user prepare sret
resumed-satp img w = refl

pub s_start-IsStarted :
    (img : Image) (kernel_end : ℕ) (c : Command) (args : ℕ) (name : List ℕ) (files : Files)
    (w : World)
    → IsBounded w.user_app
    → NamesProgram c args w.mem name
    → IsSoundFile c.file
    → SparesKernel kernel_end c.file
    → CanOpen c files
    → Succeeds
        (s_start img c args files w)
        (λ files' v. IsStarted img kernel_end c.file (header_of (c.file.bytes 0)) v)
unfolding s_start load_user_program
s_start-IsStarted img kernel_end c args name files w b n s spares can =
    let h = header_of (c.file.bytes 0) in
    let (hello, s1) = sprint_then (text "Enter supervisor mode...\n") [] _ w _ enter_line in
    let v = record (logged hello w) { csrs = record (w.csrs) { satp = 0 } } in
    let v' : World = record v {
      user_app = record (w.user_app) {
        kstack = user_kstack;
        trapframe = record {
          regs = record (zero_regs) { sp = user_stack };
          kernel_sp = 0;
          kernel_trap = 0;
          epc = 0;
        };
      };
    } in
    let b' : IsBounded v'.user_app = record { symbols = b.symbols; strings = b.strings } in
    let (files', u, loads, (m, l)) = load_bincode-ok c args name files v' b' n s can in
    let (bye, s2) =
      sprint_then (text "Switch to user mode...\n") [] _ u
        (λ _ x. and_then (switch_to img user_app_ptr x) λ _. ok files') switch_line in
    let x = logged bye u in
    let table : TableLoads c.file h.phnum h.phoff m (resumed img x).mem =
      subst (λ (n : Mem). TableLoads c.file h.phnum h.phoff m n) (sym (resumed-keeps img x).0)
        l.memory in
    (
      files',
      resumed img x,
      s1
          ∙ (and_then-ok (load_user_program c args files v) _ files' u loads
              ∙ (s2
                  ∙ and_then-ok (switch_to img user_app_ptr x) (λ _. ok files') tt (resumed img x)
                      (switch-started img x))),
      record {
        ready = resumed-IsReady img x;
        entry = resumed-pc img x ∙ ap (λ (t : Trapframe). t.epc) l.frame;
        registers = resumed-regs img x ∙ ap (λ (t : Trapframe). t.regs) l.frame;
        no_translation = resumed-satp img x ∙ ap (λ (t : Csrs). t.satp) l.same_csrs;
        before = m;
        symbols = resumed-HasSymbols img c.file h x l.symbols;
        program = table;
        kernel_kept = λ a lo hi. table.outside a (λ i lt d. spares.kernel i a lt d lo hi);
        frame_kept = λ a lo hi. table.outside a (λ i lt d. spares.frame i a lt d lo hi);
      },
    )

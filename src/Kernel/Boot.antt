-- ===== src/Kernel/Boot.antt =====
-- Starting the process: `parse_args` and `load_bincode_from_host_elf` of kernel/elf.c, and
-- `load_user_program` and `s_start` of kernel/kernel.c. What the host answers is a `Command`. The
-- local `arg_bug_msg` stands in memory, at an address that is given, and the file table goes
-- along with the world.
pub mod Args
pub mod Load
pub mod Start
use lq_os_lab.Base.{
  ℕ, zero, suc, ◌+◌, ◌-◌, ◌*◌, ◌%◌, ◌^◌, Bool, true, false, not, Option, none, some, List, [], ◌∷◌,
  ltb, leb, ◌==◌, if◌then◌else◌, text,
}
use lq_os_lab.Base.Memory.{Mem, u64_mod, load64, store64}
use lq_os_lab.Util.Print.{num, str}
use lq_os_lab.Util.Strings.{chars}
use lq_os_lab.Hart.{Regs, Csrs, zero_regs, user_stack, user_kstack}
use lq_os_lab.World.{
  Trapframe, Process, user_app_ptr, World, Run, ok, fault, Cmd, and_then, defined,
}
use lq_os_lab.Spike.Utils.{sprint, panic, kassert_fail}
use lq_os_lab.Spike.File.{Files, Opened, file, error, spike_file_openat, spike_file_close}
use lq_os_lab.Kernel.Elf.{
  ElfFile, ElfHeader, ElfStatus, el_ok, el_eio, el_enomem, el_notelf, el_err, store_bytes, elf_init,
  elf_load,
}
use lq_os_lab.Kernel.Symbols.{load_user_symbols}
use lq_os_lab.Kernel.Process.{Image, switch_to}

-- The result of HTIFSYS_getmainvars and the bytes that it puts in the buffer, the result of
-- opening the application, and the application's file.
pub record Command : Type 0 where
  pub main_result : ℕ
  pub main_bytes : ℕ → ℕ
  pub open_result : ℕ
  pub file : ElfFile

-- `sizeof(arg_buf)`: 64 words.
abbrev pub arg_buf_size : ℕ
arg_buf_size = 512

-- The rounds from `i` on, `k` of them: `argv[i]` takes `buf[2 + i]`, in the same union.
unfoldable pub copy_args : ℕ → ℕ → ℕ → Mem → Mem
copy_args zero args i m = m
copy_args (suc k) args i m =
    copy_args k args (i + 1) (store64 m (args + 8 * i) (load64 m (args + 8 * (2 + i))))

abbrev pub set_mem : Mem → World → World
set_mem m w = record w { mem = m }

-- More than 63 arguments index the union out of its bounds.
unfoldable pub parse_args : Command → ℕ → Cmd ℕ
parse_args c args w =
    let filled = store_bytes w.mem args arg_buf_size c.main_bytes in
    let pk_argc = load64 filled args in
    if not (c.main_result == 0)
    then kassert_fail (text "r == 0") (set_mem filled w)
    else if ltb 63 pk_argc
    then fault
    else ok ((pk_argc + u64_mod - 1) % u64_mod) (set_mem (copy_args (pk_argc - 1) args 0 filled) w)

-- `IS_ERR_VALUE`
abbrev pub is_err_value : ℕ → Bool
is_err_value x = leb (u64_mod - 4096) x

abbrev pub status_ok : ElfStatus → Bool
status_ok el_ok = true
status_ok el_eio = false
status_ok el_enomem = false
status_ok el_notelf = false
status_ok el_err = false

abbrev pub set_epc : ℕ → World → World
set_epc entry w = record w {
  user_app = record (w.user_app) { trapframe = record (w.user_app.trapframe) { epc = entry } };
}

abbrev pub closed_files : Option (ℕ × Files) → Cmd Files
closed_files none w = fault
closed_files (some (r, files)) w = ok files w

-- From the symbols on: the entry point, the close, and the last line.
unfoldable pub finish_load : ElfFile → ElfHeader → ℕ → Files → Cmd Files
finish_load elf h f files w = and_then (load_user_symbols elf h w) λ _ v.
    and_then (closed_files (spike_file_close (some f) files) (set_epc h.entry v)) λ files' u.
      and_then
        (sprint (text "Application program entry point (virtual address): 0x%lx\n")
          (num u.user_app.trapframe.epc ∷ []) u)
        λ _. ok files'

-- From `elf_init` on, with the file in slot `f`.
unfoldable pub load_elf : ElfFile → ℕ → Files → Cmd Files
load_elf elf f files w =
    let (status, h) = elf_init elf in
    let (loaded, m) = elf_load elf h w.mem in
    if not (status_ok status)
    then panic (text "fail to init elfloader.\n") [] w
    else if not (status_ok loaded)
    then panic (text "Fail on loading elf.\n") [] (set_mem m w)
    else finish_load elf h f files (set_mem m w)

-- An error that `IS_ERR_VALUE` does not see is used as a pointer.
unfoldable pub open_elf : Command → Files → Cmd Files
open_elf c files w =
    let (opened, files') = spike_file_openat c.open_result files in
    elim opened [
      | file f ↦ load_elf c.file f files' w
      | error e ↦
          if is_err_value e
          then panic (text "Fail on openning the input application program.\n") [] w
          else fault
    ]

unfoldable pub load_bincode_from_host_elf : Command → ℕ → Files → Cmd Files
load_bincode_from_host_elf c args files w = and_then (parse_args c args w) λ argc v.
    (if argc == 0
      then panic (text "You need to specify the application program!\n") [] v
      else (and_then (defined (chars (λ i. v.mem (load64 v.mem args + i))) v) λ name u.
          and_then (sprint (text "Application: %s\n") (str name ∷ []) u) λ _. open_elf c files))

-- `memset` of the trap frame, the stacks, and the loader.
unfoldable pub load_user_program : Command → ℕ → Files → Cmd Files
load_user_program c args files w = load_bincode_from_host_elf c args files (record w {
  user_app = record (w.user_app) {
    kstack = user_kstack;
    trapframe = record {
      regs = record (zero_regs) { sp = user_stack };
      kernel_sp = 0;
      kernel_trap = 0;
      epc = 0;
    };
  };
})

unfoldable pub s_start : Image → Command → ℕ → Files → Cmd Files
s_start img c args files w = and_then (sprint (text "Enter supervisor mode...\n") [] w) λ _ v.
    and_then (load_user_program c args files (record v { csrs = record (v.csrs) { satp = 0 } }))
      λ files' u.
        and_then (sprint (text "Switch to user mode...\n") [] u)
          λ _ x. and_then (switch_to img user_app_ptr x) λ _. ok files'

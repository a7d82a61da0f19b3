-- ===== src/Tests/Samples.antt =====
-- A kernel image, a process and a machine state to run the code on.
use lq_os_lab.Base.{ℕ, ◌^◌, false, [], ◌∷◌, text, get_or}
use lq_os_lab.Hart.{Csrs, zero_regs, user_kstack, user_trap_frame}
use lq_os_lab.World.{ElfSymbol, Process, user_app_ptr, World}
use lq_os_lab.Kernel.Process.{Image}

abbrev pub image : Image
image = record {
  smode_trap_vector = 0x80001000;
  smode_trap_handler = 0x80002000;
  s_start = 0x80003000;
  mtrapvec = 0x80004000;
  g_itrframe = 0x80005000;
}

abbrev pub user_csrs : Csrs
user_csrs = record {
  satp = 0;
  stvec = 0x80001000;
  sstatus = 0x22;
  sepc = 0x81000010;
  scause = 0;
  stval = 0;
  sip = 2;
  sie = 0x222;
  sscratch = user_trap_frame;
  mstatus = 0x8;
  mepc = 0x81000020;
  mcause = 0;
  mtval = 0;
  mtvec = 0x80004000;
  mie = 0x80;
  mideleg = 0x222;
  medeleg = 0xb109;
  mscratch = 0x80005000;
  misa = 2 ^ 18;
}

abbrev pub main_symbol : ElfSymbol
main_symbol = record {
  name = 1;
  info = 0x12;
  other = 0;
  shndx = 1;
  value = 0x81000000;
  size = 0x40;
}

-- One function, `main`, at 0x81000000.
abbrev pub one_function : Process
one_function = record {
  kstack = user_kstack;
  trapframe = record {
    regs = zero_regs;
    kernel_sp = user_kstack;
    kernel_trap = 0x80002000;
    epc = 0;
  };
  symtab = λ i. main_symbol;
  sym_count = 1;
  strtab = λ i. get_or (0 ∷ text "main") i 0;
  strtab_sz = 6;
}

-- The text "hi" stands at address 2.
abbrev pub user_world : World
user_world = record {
  mem = λ a. get_or (0 ∷ 0 ∷ text "hi") a 0;
  regs = record (zero_regs) { a0 = 66; s1 = 7; t6 = 9 };
  pc = 0x80001000;
  user_mode = false;
  csrs = user_csrs;
  mtime = 0;
  mtimecmp = λ hart. 1000;
  g_itrframe = zero_regs;
  current = user_app_ptr;
  user_app = one_function;
  g_ticks = 41;
  htif = 1;
  g_mem_size = 0;
  stderr_kfd = 2;
  scratch = λ i. 0;
  va_pointer = 0;
  host = [];
}

-- The same at a trap for the given cause.
abbrev pub trapped_for : ℕ → World
trapped_for cause = record user_world { csrs = record (user_csrs) { scause = cause } }

abbrev pub m_trapped_for : ℕ → World
m_trapped_for cause = record user_world { csrs = record (user_csrs) { mcause = cause } }

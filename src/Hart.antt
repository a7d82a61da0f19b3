-- ===== src/Hart.antt =====
-- The registers of the hart, after kernel/riscv.h, with the constants of that file and of
-- kernel/config.h.
use lq_os_lab.Base.{ℕ, ◌-◌, ◌^◌, bit_and}
use lq_os_lab.Base.Memory.{u64_mod}

-- `riscv_regs`: the general purpose registers in the order of the trap frame.
pub record Regs : Type 0 where
  pub ra : ℕ
  pub sp : ℕ
  pub gp : ℕ
  pub tp : ℕ
  pub t0 : ℕ
  pub t1 : ℕ
  pub t2 : ℕ
  pub s0 : ℕ
  pub s1 : ℕ
  pub a0 : ℕ
  pub a1 : ℕ
  pub a2 : ℕ
  pub a3 : ℕ
  pub a4 : ℕ
  pub a5 : ℕ
  pub a6 : ℕ
  pub a7 : ℕ
  pub s2 : ℕ
  pub s3 : ℕ
  pub s4 : ℕ
  pub s5 : ℕ
  pub s6 : ℕ
  pub s7 : ℕ
  pub s8 : ℕ
  pub s9 : ℕ
  pub s10 : ℕ
  pub s11 : ℕ
  pub t3 : ℕ
  pub t4 : ℕ
  pub t5 : ℕ
  pub t6 : ℕ

abbrev pub zero_regs : Regs
zero_regs = record {
  ra = 0;
  sp = 0;
  gp = 0;
  tp = 0;
  t0 = 0;
  t1 = 0;
  t2 = 0;
  s0 = 0;
  s1 = 0;
  a0 = 0;
  a1 = 0;
  a2 = 0;
  a3 = 0;
  a4 = 0;
  a5 = 0;
  a6 = 0;
  a7 = 0;
  s2 = 0;
  s3 = 0;
  s4 = 0;
  s5 = 0;
  s6 = 0;
  s7 = 0;
  s8 = 0;
  s9 = 0;
  s10 = 0;
  s11 = 0;
  t3 = 0;
  t4 = 0;
  t5 = 0;
  t6 = 0;
}

-- The control and status registers that the kernel reads or writes.
pub record Csrs : Type 0 where
  pub satp : ℕ
  pub stvec : ℕ
  pub sstatus : ℕ
  pub sepc : ℕ
  pub scause : ℕ
  pub stval : ℕ
  pub sip : ℕ
  pub sie : ℕ
  pub sscratch : ℕ
  pub mstatus : ℕ
  pub mepc : ℕ
  pub mcause : ℕ
  pub mtval : ℕ
  pub mtvec : ℕ
  pub mie : ℕ
  pub mideleg : ℕ
  pub medeleg : ℕ
  pub mscratch : ℕ
  pub misa : ℕ

-- `x & ~m` on 64 bits, for a mask `m` below 2 ^ 64.
abbrev pub clear_bits : ℕ → ℕ → ℕ
clear_bits x m = bit_and x (u64_mod - 1 - m)

abbrev pub sstatus_spp : ℕ
sstatus_spp = 2 ^ 8

abbrev pub sstatus_spie : ℕ
sstatus_spie = 2 ^ 5

abbrev pub sip_ssip : ℕ
sip_ssip = 2 ^ 1

abbrev pub cause_user_ecall : ℕ
cause_user_ecall = 0x8

abbrev pub cause_mtimer : ℕ
cause_mtimer = 0x8000000000000007

abbrev pub cause_mtimer_s_trap : ℕ
cause_mtimer_s_trap = 0x8000000000000001

abbrev pub cause_fetch_access : ℕ
cause_fetch_access = 0x1

abbrev pub cause_illegal_instruction : ℕ
cause_illegal_instruction = 0x2

abbrev pub cause_misaligned_load : ℕ
cause_misaligned_load = 0x4

abbrev pub cause_load_access : ℕ
cause_load_access = 0x5

abbrev pub cause_misaligned_store : ℕ
cause_misaligned_store = 0x6

abbrev pub cause_store_access : ℕ
cause_store_access = 0x7

abbrev pub timer_interval : ℕ
timer_interval = 1000000

abbrev pub dram_base : ℕ
dram_base = 0x80000000

abbrev pub user_stack : ℕ
user_stack = 0x81100000

abbrev pub user_kstack : ℕ
user_kstack = 0x81200000

abbrev pub user_trap_frame : ℕ
user_trap_frame = 0x81300000

-- `sizeof(trapframe)`: the 31 registers, `kernel_sp`, `kernel_trap` and `epc`.
abbrev pub trapframe_size : ℕ
trapframe_size = 272

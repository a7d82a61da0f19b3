-- ===== src/Kernel/Startup.antt =====
-- The start in M mode, kernel/machine/minit.c. `write_csr` sets the whole
-- register, so that the assertions read back what was written.
pub mod Delegation
pub mod Supervisor
pub mod Devices
pub mod Entry
use lq_os_lab.Base.{
  ◌*◌, ◌/◌, List, ◌∷◌, ℕ, ◌+◌, ◌-◌, ◌%◌, ◌^◌, bit_and, bit_or, [], ◌==◌, not, if◌then◌else◌, text,
}
use lq_os_lab.Base.Memory.{u64_mod}
use lq_os_lab.Hart.{Csrs, clear_bits, timer_interval}
use lq_os_lab.World.{World, ok, and_then, defined, Cmd, ◌>>◌, modify, set_csrs}
use lq_os_lab.Util.Print.{num}
use lq_os_lab.Spike.File.{Files, spike_file_init}
use lq_os_lab.Spike.Dts.Query.{MemScan, HtifScan, query_mem, query_htif}
use lq_os_lab.Kernel.Process.{Image}
use lq_os_lab.Kernel.Machine.{mstatus_mie, mstatus_mpp_mask, mret, with_timer}
use lq_os_lab.Spike.Utils.{sprint, assert_fail}

abbrev pub mip_ssip : ℕ
mip_ssip = 2 ^ 1

abbrev pub mip_stip : ℕ
mip_stip = 2 ^ 5

abbrev pub mip_seip : ℕ
mip_seip = 2 ^ 9

abbrev pub mie_mtie : ℕ
mie_mtie = 2 ^ 7

-- `misa & (1 << (ext - 'A'))`
unfoldable pub supports_extension : ℕ → World → ℕ
supports_extension ext w = bit_and w.csrs.misa (2 ^ (ext - b'A'))

-- Misaligned fetch, breakpoint, ecall from user mode, and the page faults.
abbrev pub exceptions : ℕ
exceptions =
    bit_or (bit_or (bit_or (bit_or (bit_or (2 ^ 0x0) (2 ^ 0xc)) (2 ^ 0x3)) (2 ^ 0xd)) (2 ^ 0xf))
      (2 ^ 0x8)

abbrev pub interrupts : ℕ
interrupts = bit_or (bit_or mip_ssip mip_stip) mip_seip

-- The two assertions at the end.
unfoldable pub check_delegation : Cmd (Unit {0})
check_delegation w =
    if not (w.csrs.mideleg == interrupts)
    then assert_fail (text "kernel/machine/minit.c") 75 (text "read_csr(mideleg) == interrupts") w
    else if not (w.csrs.medeleg == exceptions)
    then assert_fail (text "kernel/machine/minit.c") 76 (text "read_csr(medeleg) == exceptions") w
    else ok tt w

unfoldable pub delegate_traps : Cmd (Unit {0})
delegate_traps w =
    if supports_extension b'S' w == 0
    then sprint (text "S mode is not supported.\n") [] w
    else (set_csrs (λ c. record c { mideleg = interrupts; medeleg = exceptions })
          >> check_delegation)
        w

unfoldable pub timerinit : ℕ → Cmd (Unit {0})
timerinit hartid = modify λ w. record w {
  mtimecmp = with_timer hartid ((w.mtime + timer_interval) % u64_mod) w.mtimecmp;
  csrs = record (w.csrs) { mie = bit_or w.csrs.mie mie_mtie };
}

-- `f` is the fuel of the scans, `self` the address of `mem_done`; the two scans hold what the stack
-- held.
unfoldable pub init_dtb : ℕ → ℕ → HtifScan → MemScan → ℕ → Cmd (Unit {0})
init_dtb f self htif_scan mem_scan dtb w = and_then (query_htif f htif_scan dtb w) λ _ u.
    and_then (if u.htif == 0 then ok tt u else sprint (text "HTIF is available!\r\n") [] u) λ _ v.
      and_then (query_mem f self mem_scan dtb v)
        λ _ x. sprint (text "(Emulated) memory size: %ld MB\n") (num (x.g_mem_size / 2 ^ 20) ∷ []) x

abbrev pub mstatus_mpp_s : ℕ
mstatus_mpp_s = 2 ^ 11

abbrev pub sie_seie : ℕ
sie_seie = 2 ^ 9

abbrev pub sie_stie : ℕ
sie_stie = 2 ^ 5

abbrev pub sie_ssie : ℕ
sie_ssie = 2 ^ 1

-- The writes of `m_start` up to `delegate_traps`.
unfoldable pub set_machine : Image → World → World
set_machine img w = record w {
  csrs = record (w.csrs) {
    mscratch = img.g_itrframe;
    mstatus =
        bit_or (bit_or (clear_bits w.csrs.mstatus mstatus_mpp_mask) mstatus_mpp_s) mstatus_mie;
    mepc = img.s_start;
    mtvec = img.mtrapvec;
  };
}

unfoldable pub set_sie : World → World
set_sie w = record w {
  csrs = record (w.csrs) { sie = bit_or (bit_or (bit_or w.csrs.sie sie_seie) sie_stie) sie_ssie };
}

-- `m_start` behind `init_dtb`, to the first instruction of `s_start`.
unfoldable pub enter_supervisor : Image → ℕ → Cmd (Unit {0})
enter_supervisor img hartid w =
    and_then (delegate_traps (set_machine img w))
      λ _ v. and_then (timerinit hartid (set_sie v)) λ _ u. ok tt (mret u)

unfoldable pub m_start : Image → Files → ℕ → ℕ → HtifScan → MemScan → ℕ → ℕ → Cmd Files
m_start img files f self htif_scan mem_scan hartid dtb w =
    and_then (defined (spike_file_init files) w) λ files' u.
      and_then (sprint (text "In m_start, hartid:%d\n") (num hartid ∷ []) u) λ _ v.
        and_then (init_dtb f self htif_scan mem_scan dtb v)
          λ _ x. and_then (enter_supervisor img hartid x) λ _. ok files'

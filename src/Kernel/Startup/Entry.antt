-- ===== src/Kernel/Startup/Entry.antt =====
-- `m_start` of kernel/machine/minit.c as a whole, and the start of the machine up to the program's
-- first instruction.
use mathlib.Core.Path.{subst}
use lq_os_lab.Base.{ℕ, arith, ◌+◌, ◌≤◌, ◌≡◌, ◌≢◌, sym, ap, ◌∙◌, List, [], ◌∷◌, text}
use lq_os_lab.Base.Memory.{IsBytes}
use lq_os_lab.Util.Print.{num}
use lq_os_lab.World.{World, Cmd, ok, and_then, defined}
use lq_os_lab.World.Runs.{Succeeds, and_then-ok}
use lq_os_lab.Spike.Utils.{sprint}
use lq_os_lab.Spike.Utils.Console.{logged, sprint-ok}
use lq_os_lab.Spike.Utils.Messages.{render-hartid}
use lq_os_lab.Spike.File.Standard.{IsStandard, spike_file_init-IsStandard}
use lq_os_lab.Spike.File.{Files}
use lq_os_lab.Spike.Dts.{new_child, swapped}
use lq_os_lab.Spike.Dts.Query.{MemScan, HtifScan}
use lq_os_lab.Spike.Dts.Tree.{Children, IsTree, children_tokens}
use lq_os_lab.Spike.Dts.Visit.Walk.{AllNodes}
use lq_os_lab.Spike.Dts.Amount.{MemoryIsSound, tree_size}
use lq_os_lab.Kernel.Elf.{header_of}
use lq_os_lab.Kernel.Process.{Image}
use lq_os_lab.Kernel.Boot.{Command, s_start}
use lq_os_lab.Kernel.Boot.Load.{IsSoundFile, HostOpens, SparesKernel}
use lq_os_lab.Kernel.Boot.Start.{NamesProgram, IsStarted, s_start-IsStarted}
use lq_os_lab.Kernel.Symbols.Bounds.{IsBounded}
use lq_os_lab.Kernel.Startup.{supports_extension, init_dtb, enter_supervisor, m_start}
use lq_os_lab.Kernel.Startup.Supervisor.{IsEntered, enter_supervisor-IsEntered}
use lq_os_lab.Kernel.Startup.Devices.{Finds, init_dtb-Finds}

-- An empty file table, a device tree whose memory nodes have whole regions, one of
-- which tells a size, a round for each of its tokens, and a processor with S mode.
pub record CanStart (files : Files) (f self dtb : ℕ) (tree : Children) (w : World) : Type 0 where
  pub no_files : IsStandard 0 files
  pub bytes : IsBytes w.mem
  pub is_tree : IsTree w.mem dtb tree
  pub enough : children_tokens tree ≤ f
  pub regions : AllNodes MemoryIsSound [] new_child (dtb + swapped w.mem (dtb + 8)) tree
  pub some_size : tree_size self w.mem [] new_child (dtb + swapped w.mem (dtb + 8)) tree 0 ≢ 0
  pub supervisor : supports_extension b'S' w ≢ 0

pub m_start-IsEntered :
    (img : Image) (files : Files) (f self : ℕ) (htif_scan : HtifScan) (mem_scan : MemScan)
    (hartid dtb : ℕ) (tree : Children) (w : World)
    → CanStart files f self dtb tree w
    → Succeeds (m_start img files f self htif_scan mem_scan hartid dtb w) (λ out v.
      IsStandard 3 out
      × (out.closed ≡ files.closed)
      × (x : World) × Finds self (dtb + swapped w.mem (dtb + 8)) tree w x
      × IsEntered img hartid x v)
unfolding m_start supports_extension
m_start-IsEntered img files f self htif_scan mem_scan hartid dtb tree w can =
    let (files', bound, standard, closed) = spike_file_init-IsStandard files can.no_files in
    let (bytes, e) =
      sprint-ok (text "In m_start, hartid:%d\n") (num hartid ∷ []) _ w (render-hartid hartid) in
    let u = logged bytes w in
    let enters : Files → Unit {0} → Cmd Files =
      λ fs _ x. and_then (enter_supervisor img hartid x) λ _. ok fs in
    let finds_devices : Files → Unit {0} → Cmd Files =
      λ fs _ v. and_then (init_dtb f self htif_scan mem_scan dtb v) (enters fs) in
    let (unit, x, e', finds) =
      init_dtb-Finds f self dtb htif_scan mem_scan tree u can.bytes can.is_tree can.enough
        can.regions can.some_size in
    let (v, e'', entered) =
      enter_supervisor-IsEntered img hartid x
        (λ z. can.supervisor (sym (ap (supports_extension b'S') finds) ∙ z)) in
    (
      files',
      v,
      ap
            (λ o. and_then (defined o w) λ fs u.
              and_then (sprint (text "In m_start, hartid:%d\n") (num hartid ∷ []) u)
                (finds_devices fs))
            bound
          ∙ and_then-ok (sprint (text "In m_start, hartid:%d\n") (num hartid ∷ []) w)
              (finds_devices files') tt u e
          ∙ and_then-ok (init_dtb f self htif_scan mem_scan dtb u) (enters files') tt x e'
          ∙ and_then-ok (enter_supervisor img hartid x) (λ _. ok files') tt v e'',
      (standard, closed, x, finds, entered),
    )

-- From such a start, with one argument on the command line that names the program, a host that opens
-- it and a sound file whose segments spare the kernel and the trap frame, the machine gets from `m_start` through `s_start` to the program's first
-- instruction, in user mode, with the program in memory and the kernel ready for the next trap.
pub m_start-IsStarted :
    (img : Image) (files : Files) (f self : ℕ) (htif_scan : HtifScan) (mem_scan : MemScan)
    (hartid dtb : ℕ) (tree : Children) (kernel_end : ℕ) (c : Command) (args : ℕ) (name : List ℕ)
    (w : World)
    → CanStart files f self dtb tree w
    → IsBounded w.user_app
    → NamesProgram c args w.mem name
    → IsSoundFile c.file
    → SparesKernel kernel_end c.file
    → HostOpens c
    → Succeeds
        (and_then (m_start img files f self htif_scan mem_scan hartid dtb w) (s_start img c args))
        (λ out v. IsStarted img kernel_end c.file (header_of (c.file.bytes 0)) v)
m_start-IsStarted img files f self htif_scan mem_scan hartid dtb tree kernel_end c args name w can b
      n s spares opens =
    let (out, v, e, (standard, closed, x, finds, entered)) =
      m_start-IsEntered img files f self htif_scan mem_scan hartid dtb tree w can in
    let process : v.user_app ≡ w.user_app = entered.same_process ∙ ap (λ x. x.user_app) finds in
    let memory : v.mem ≡ w.mem = entered.same_memory ∙ ap (λ x. x.mem) finds in
    let (last, u, e', started) =
      s_start-IsStarted img kernel_end c args name out v (subst IsBounded (sym process) b)
        (subst (λ m. NamesProgram c args m name) (sym memory) n) s spares
        (record {
          opened = opens.opened;
          in_range = opens.in_range;
          slot = 3;
          is_slot = omega arith;
          free = standard.free 3 (omega arith) (omega arith);
        }) in
    (
      last,
      u,
      and_then-ok (m_start img files f self htif_scan mem_scan hartid dtb w) (s_start img c args)
            out v e
          ∙ e',
      started,
    )

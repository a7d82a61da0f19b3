-- ===== src/Tests/Starts.antt =====
-- The start of the machine, from `m_start` on, with the device tree and the program of the other
-- tests.
use lq_os_lab.Base.{refl, arith, false, text}
use lq_os_lab.Base.Memory.{IsBytes, load32, load64}
use lq_os_lab.Util.Strings.Lexical.{same_text}
use lq_os_lab.World.{World, and_then}
use lq_os_lab.World.Runs.{Succeeds}
use lq_os_lab.Spike.File.{initial}
use lq_os_lab.Spike.File.Standard.{IsStandard}
use lq_os_lab.Spike.Dts.{bswap}
use lq_os_lab.Spike.Dts.Cells.{big_endian}
use lq_os_lab.Kernel.Elf.{header_of, store_bytes}
use lq_os_lab.Kernel.Boot.{arg_buf_size, s_start}
use lq_os_lab.Kernel.Boot.Start.{NamesProgram, IsStarted}
use lq_os_lab.Kernel.Startup.{m_start, supports_extension}
use lq_os_lab.Kernel.Startup.Entry.{CanStart, m_start-IsStarted}
use lq_os_lab.Tests.Samples.{image}
use lq_os_lab.Tests.Boots.{command, program, program-IsSoundFile, program-SparesKernel}
use lq_os_lab.Tests.Devices.{
  tree, tree_memory, tree_world, tree-IsBytes, tree-IsTree, tree_sound, some_scan,
}

initial-IsStandard : IsStandard 0 initial
initial-IsStandard = record {
  opened = λ j lt. absurd (omega arith);
  bound = λ j lt. absurd (omega arith);
  free = λ j lo hi. refl;
  unbound = λ j lo hi. refl;
}

can_start : CanStart initial 20 0x80001000 1024 tree tree_world
unfolding bswap load32 same_text big_endian supports_extension
can_start = record {
  no_files = initial-IsStandard;
  bytes = tree-IsBytes;
  is_tree = tree-IsTree;
  enough = omega arith;
  regions = tree_sound;
  some_size = λ e. absurd (omega (arith, e));
  supervisor = λ e. absurd (omega (arith, e));
}

filled-IsBytes : IsBytes (store_bytes tree_memory 0 arg_buf_size command.main_bytes)
unfolding store_bytes
filled-IsBytes a = ground (arith, tree-IsBytes a)

tree-NamesProgram : NamesProgram command 0 tree_memory (text "a")
unfolding store_bytes load64
tree-NamesProgram = record {
  answered = refl;
  bytes = filled-IsBytes;
  one_argument = refl;
  behind = omega arith;
  stands = (refl, (λ e. absurd (omega arith)), omega arith, refl);
  short = omega arith;
}

m_start-IsStarted_example :
    Succeeds
      (and_then
        (m_start image initial 20 0x80001000
          (record { compat = false })
          some_scan
          0
          1024
          tree_world)
        (s_start image command 0))
      (λ out v. IsStarted image 0x80100000 program (header_of (program.bytes 0)) v)
m_start-IsStarted_example =
    m_start-IsStarted image initial 20 0x80001000 (record { compat = false }) some_scan 0 1024 tree
      0x80100000 command 0 (text "a") tree_world can_start
      (record { symbols = omega arith; strings = omega arith }) tree-NamesProgram
      program-IsSoundFile program-SparesKernel
      (record { opened = omega arith; in_range = omega arith })

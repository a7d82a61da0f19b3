-- ===== src/Tests/Trees.antt =====
-- Numbers and regions of a device tree.
use lq_os_lab.Base.{◌%◌, ◌≡◌, refl, arith, true, [], ◌∷◌, ◌==◌, if◌then◌else◌}
use lq_os_lab.Base.Memory.{Mem, IsBytes, u64_mod}
use lq_os_lab.World.{World, ok}
use lq_os_lab.Spike.Dts.{FdtScanNode, fdt_get_address, fdt_get_size}
use lq_os_lab.Spike.Dts.Cells.{big_endian, fdt_get-big_endian}
use lq_os_lab.Spike.Dts.Query.{MemScan, mem_done}
use lq_os_lab.Spike.Dts.Regions.{Sizes}
use lq_os_lab.Spike.Dts.Size.{mem_done-Sizes}
use lq_os_lab.Tests.Samples.{user_world}

-- At 16, the region of 0x80000000 bytes at 0x80000000.
abbrev tree_memory : Mem
tree_memory a = if a == 20 then 0x80 else if a == 28 then 0x80 else 0

tree-IsBytes : IsBytes tree_memory
tree-IsBytes a = ground arith

abbrev root : FdtScanNode
root = record { name = 0; address_cells = 2; size_cells = 2 }

fdt_get-big_endian_example :
    (fdt_get_address root tree_memory 16 ≡ (24, big_endian 8 tree_memory 16 0 % u64_mod))
    × (fdt_get_size root tree_memory 16 ≡ (24, big_endian 8 tree_memory 16 0 % u64_mod))
fdt_get-big_endian_example = fdt_get-big_endian root tree_memory 16 tree-IsBytes

abbrev memory_scan : MemScan
memory_scan = record { memory = true; reg_value = 16; reg_len = 16 }

abbrev tree_world : World
tree_world = record user_world { mem = tree_memory }

mem_done-Sizes_example :
    (u : World) × (mem_done 0x80001000 (root ∷ root ∷ []) memory_scan tree_world ≡ ok memory_scan u)
    × Sizes 0x80001000 root 1 16 tree_world u
mem_done-Sizes_example =
    mem_done-Sizes 0x80001000 1 root root [] memory_scan tree_world tree-IsBytes refl
      (λ e. absurd (omega (arith, e))) (omega arith) (omega arith) refl

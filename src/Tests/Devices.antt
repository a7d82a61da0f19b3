-- ===== src/Tests/Devices.antt =====
-- A device tree in memory, and the start of the machine on it.
use lq_os_lab.Base.{
  ℕ, zero, suc, ◌+◌, ◌-◌, ◌/◌, ◌%◌, ◌^◌, ◌≡◌, ◌<◌, refl, arith, false, List, [], ◌∷◌, ◌++◌, ltb,
  ◌==◌, if◌then◌else◌, get_or, text,
}
use lq_os_lab.Base.Memory.{Mem, IsBytes, load32}
use lq_os_lab.Util.Strings.Lexical.{same_text}
use lq_os_lab.World.{World, ok}
use lq_os_lab.Spike.Utils.{assert_fail}
use lq_os_lab.Spike.Dts.{bswap, swapped, new_child, fdt_scan}
use lq_os_lab.Spike.Dts.Cells.{big_endian}
use lq_os_lab.Spike.Dts.Query.{MemScan, htif_cb, query_htif, query_mem}
use lq_os_lab.Spike.Dts.Tree.{
  Entry, property, Children, end_node, fdt_end, child, IsTree, tree_events, perform,
}
use lq_os_lab.Spike.Dts.Visit.Nodes.{fdt_scan-visit}
use lq_os_lab.Spike.Dts.Visit.Walk.{AllNodes}
use lq_os_lab.Spike.Dts.Says.{some_node}
use lq_os_lab.Spike.Dts.Device.{is_htif, found, htif-KeepsMem, query_htif-finds}
use lq_os_lab.Spike.Dts.Amount.Query.{query_mem-sizes}
use lq_os_lab.Spike.Dts.Amount.{MemoryIsSound, tree_size, sized}
use lq_os_lab.Tests.Samples.{user_world}

abbrev be : ℕ → List ℕ
be x = x / 2 ^ 24 ∷ x / 2 ^ 16 % 256 ∷ x / 2 ^ 8 % 256 ∷ x % 256 ∷ []

-- The header, the structure block at 40, and the strings at 200.
abbrev blob : List ℕ
blob =
    be 0xd00dfeed
    ++ be 254
    ++ be 40
    ++ be 200
    ++ be 40
    ++ be 17
    ++ be 16
    ++ be 0
    ++ be 54
    ++ be 160
    ++ be 1
    ++ be 0
    ++ be 3
    ++ be 4
    ++ be 0
    ++ be 2
    ++ be 3
    ++ be 4
    ++ be 15
    ++ be 2
    ++ be 1
    ++ (text "memory@80000000" ++ 0 ∷ [])
    ++ be 3
    ++ be 7
    ++ be 27
    ++ (text "memory" ++ 0 ∷ 0 ∷ [])
    ++ be 3
    ++ be 16
    ++ be 39
    ++ be 0
    ++ be 0x80000000
    ++ be 0
    ++ be 0x80000000
    ++ be 2
    ++ be 1
    ++ (text "htif" ++ 0 ∷ 0 ∷ 0 ∷ 0 ∷ [])
    ++ be 3
    ++ be 10
    ++ be 43
    ++ (text "ucb,htif0" ++ 0 ∷ 0 ∷ 0 ∷ [])
    ++ be 2
    ++ be 2
    ++ be 9
    ++ (text "#address-cells" ++ 0 ∷ [])
    ++ (text "#size-cells" ++ 0 ∷ [])
    ++ (text "device_type" ++ 0 ∷ [])
    ++ (text "reg" ++ 0 ∷ [])
    ++ (text "compatible" ++ 0 ∷ [])

abbrev root_entries : List Entry
root_entries =
    property (record { offset = 0; name = text "#address-cells"; len = 4; value = []; word = 2 })
    ∷ property (record { offset = 15; name = text "#size-cells"; len = 4; value = []; word = 2 })
    ∷ []

abbrev memory_entries : List Entry
memory_entries =
    property (record {
      offset = 27;
      name = text "device_type";
      len = 7;
      value = text "memory";
      word = 0x6d656d6f;
    })
    ∷ property (record { offset = 39; name = text "reg"; len = 16; value = []; word = 0 })
    ∷ []

abbrev htif_entries : List Entry
htif_entries =
    property (record {
      offset = 43;
      name = text "compatible";
      len = 10;
      value = text "ucb,htif0";
      word = 0x7563622c;
    })
    ∷ []

abbrev pub tree : Children
tree =
    child [] root_entries
      (child (text "memory@80000000") memory_entries end_node
        (child (text "htif") htif_entries end_node end_node))
      fdt_end

abbrev AllBytes : List ℕ → Type 0
AllBytes [] = Unit
AllBytes (x ∷ xs) = (x < 256) × AllBytes xs

-- The blob stands at 1024, and a text at 512.
abbrev pub tree_memory : Mem
tree_memory a = if ltb a 1024 then if a == 512 then b'a' else 0 else get_or blob (a - 1024) 0

abbrev pub tree_world : World
tree_world = record user_world { mem = tree_memory }

get_or-lt : (xs : List ℕ) (i : ℕ) → AllBytes xs → get_or xs i 0 < 256
get_or-lt [] i h = omega arith
get_or-lt (x ∷ xs) zero h = h.0
get_or-lt (x ∷ xs) (suc i) h = get_or-lt xs i h.1

pub tree-IsBytes : IsBytes tree_memory
tree-IsBytes a = ground (arith, get_or-lt blob (a - 1024) (ground arith))

pub tree-IsTree : IsTree tree_memory 1024 tree
unfolding bswap load32
tree-IsTree = (refl, omega arith, ground arith)

pub tree_sound : AllNodes MemoryIsSound [] new_child 1064 tree
unfolding same_text
tree_sound = ground arith

fdt_scan-visit_example :
    fdt_scan 20 1024 htif_cb (record { compat = false }) tree_world
    ≡ perform htif_cb (tree_events tree_memory 1024 tree) (record { compat = false }) tree_world
unfolding htif_cb
fdt_scan-visit_example =
    fdt_scan-visit htif_cb 20 1024 tree (record { compat = false }) tree_world htif-KeepsMem refl
      tree-IsTree (omega arith)

query_htif-finds_example :
    query_htif 20 (record { compat = false }) 1024 tree_world
    ≡ ok tt (found (some_node is_htif tree) tree_world)
query_htif-finds_example =
    query_htif-finds 20 1024 (record { compat = false }) tree tree_world tree-IsTree (omega arith)

abbrev pub some_scan : MemScan
some_scan = record { memory = false; reg_value = 7; reg_len = 9 }

query_mem-sizes_example : query_mem 20 0x80001000 some_scan 1024 tree_world ≡ (
    let size =
      tree_size 0x80001000 tree_memory [] new_child (1024 + swapped tree_memory 1032) tree 0 in
    if size == 0
    then assert_fail
        (text "spike_interface/spike_memory.c")
        67
        (text "g_mem_size > 0")
        (sized size tree_world)
    else ok tt (sized size tree_world))
unfolding bswap load32
query_mem-sizes_example =
    query_mem-sizes 20 0x80001000 1024 some_scan tree tree_world tree-IsBytes tree-IsTree
      (omega arith) tree_sound

tree_size-found : tree_size 0x80001000 tree_memory [] new_child 1064 tree 0 ≡ 0x80000000
unfolding same_text big_endian
tree_size-found = refl

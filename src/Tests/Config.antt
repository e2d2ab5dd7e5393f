-- ===== src/Tests/Config.antt =====
-- The local configuration on a file with one block on each of its three floors.
use mathlib.Core.Option
use indoor_navigation_system.Base.{
  true, strstr, text_eq, zero, ◌+◌, ◌-◌, decimal, starts_with, ℕ, suc, Text, codes, ◌≡◌, refl,
  arith, Option, some, none, ◌<◌,
}
use indoor_navigation_system.LocalConfig.Initialize.{FileCalls, Config}
use indoor_navigation_system.LocalConfig.{
  find_step, find_loop, lcfg_get_string_parameter, next_component, find_node, Xml, IsTree,
}
use indoor_navigation_system.LocalConfig.Walk.{
  walk-FirstMatch, find_node_ends, walk, passed, found, FirstMatch,
}
use indoor_navigation_system.WifiNode.Config.MacPath.{find_mac_path-IsMacPath, IsMacPath}
use indoor_navigation_system.WifiNode.Config.{
  search_blocks, search_floors, find_mac_path, lcfg_leaf_str,
}
use indoor_navigation_system.WifiNode.Config.Shadow.{
  find_mac_path_below_ten, floor_path, IsFloor, HasLayout,
}
use indoor_navigation_system.WifiNode.Config.Reader.{lcfg_reader}
use indoor_navigation_system.Machine.Integers.{integers}

-- The nodes of the file: the white space in front of the elements, and what they hold.
data Node : Type 0 where
  root : Node
  space : Node
  floor : ℕ → Node
  floor_space : ℕ → Node
  block : ℕ → Node
  block_space : ℕ → Node
  mac_address : ℕ → Node
  address : Node

abbrev name_of : Node → Text
name_of (floor (suc zero)) = codes "wifiFloor1"
name_of (floor (suc (suc zero))) = codes "wifiFloor2"
name_of (floor (suc (suc (suc zero)))) = codes "wifiFloor3"
name_of root = codes "WifiNodes"
name_of (block i) = codes "wifiNodeBlock1"
name_of (mac_address i) = codes "macAddress"
name_of _ = codes "text"

abbrev child_of : Node → Option Node
child_of root = some space
child_of (floor i) = some (floor_space i)
child_of (block i) = some (block_space i)
child_of (mac_address i) = some address
child_of _ = none

abbrev next_floor : ℕ → Option Node
next_floor (suc zero) = some (floor 2)
next_floor (suc (suc zero)) = some (floor 3)
next_floor _ = none

abbrev sibling_of : Node → Option Node
sibling_of space = some (floor 1)
sibling_of (floor i) = next_floor i
sibling_of (floor_space i) = some (block i)
sibling_of (block_space i) = some (mac_address i)
sibling_of _ = none

abbrev content_of : Node → Option Text
content_of address = some (codes "aa")
content_of _ = none

abbrev size_of : Node → ℕ
size_of root = 10
size_of space = 9
size_of (floor i) = 6 + (3 - i)
size_of (floor_space i) = 5
size_of (block i) = 4
size_of (block_space i) = 3
size_of (mac_address i) = 2
size_of address = 1

abbrev file : Xml Node
file = record {
  element_name = name_of;
  children = child_of;
  next_element_sibling = sibling_of;
  content = content_of;
  get_content = content_of;
  size = size_of;
}

file-child : (n c : Node) → child_of n ≡ some c → size_of c < size_of n
file-child (floor i) c e = ground arith
file-child (block i) c e = ground arith
file-child (mac_address i) c e = ground arith
file-child (floor_space i) c e = ground arith
file-child (block_space i) c e = ground arith
file-child root c e = ground arith
file-child space c e = ground arith
file-child address c e = ground arith

file-sibling : (n s : Node) → sibling_of n ≡ some s → size_of s < size_of n
file-sibling (floor zero) c e = ground arith
file-sibling (floor (suc zero)) c e = ground arith
file-sibling (floor (suc (suc zero))) c e = ground arith
file-sibling (floor (suc (suc (suc i)))) c e = ground arith
file-sibling (block i) c e = ground arith
file-sibling (mac_address i) c e = ground arith
file-sibling (floor_space i) c e = ground arith
file-sibling (block_space i) c e = ground arith
file-sibling root c e = ground arith
file-sibling space c e = ground arith
file-sibling address c e = ground arith

file-IsTree : IsTree file
file-IsTree = record { children_lt = file-child; sibling_lt = file-sibling }

floors : (i j : ℕ) (leaf : Text) → IsFloor i → FirstMatch file (floor_path i j leaf) space (floor i)
unfolding starts_with decimal
floors i j leaf IsFloor.one = found refl refl
floors i j leaf IsFloor.two = passed refl refl (found refl refl)
floors i j leaf IsFloor.three = passed refl refl (passed refl refl (found refl refl))

file-HasLayout : HasLayout file space
file-HasLayout = record {
  floor = floor;
  floor_child = floor_space;
  block = block;
  floor_first = floors;
  floor_children = λ i f. refl;
  block_next = λ i f. refl;
  block_name = λ i f. refl;
}

find_node_ends_example :
    (r : Option Node) × (find_node file (some space) (codes "/WifiNodes/wifiFloor2/x") ≡ some r)
find_node_ends_example =
    find_node_ends file file-IsTree (some space) (codes "/WifiNodes/wifiFloor2/x")

walk-FirstMatch_example :
    walk file (some space) (some (floor_path 3 1 (codes "x")))
    ≡ walk file (some (floor_space 3)) (next_component file (floor_path 3 1 (codes "x")))
walk-FirstMatch_example =
    walk-FirstMatch file file-IsTree (floor_path 3 1 (codes "x")) space (floor 3)
      (floors 3 1 (codes "x") IsFloor.three)

aa_found :
    find_mac_path (lcfg_reader integers file (some space)) (codes "aa")
    ≡ some (some (lcfg_leaf_str 1 1))
unfolding find_mac_path search_floors search_blocks lcfg_get_string_parameter find_node find_loop
    find_step next_component strstr starts_with text_eq lcfg_leaf_str decimal
    mathlib.Core.Option.bind
aa_found = refl

find_mac_path_below_ten_example : (i j : ℕ) × (lcfg_leaf_str 1 1 ≡ lcfg_leaf_str i j) × (j < 10)
find_mac_path_below_ten_example =
    find_mac_path_below_ten file file-IsTree space file-HasLayout integers (codes "aa")
      (lcfg_leaf_str 1 1) aa_found

find_mac_path-IsMacPath_example :
    IsMacPath
      (lcfg_reader integers file (some space))
      (codes "aa")
      1
      4
      (find_mac_path (lcfg_reader integers file (some space)) (codes "aa"))
find_mac_path-IsMacPath_example =
    find_mac_path-IsMacPath (lcfg_reader integers file (some space)) (codes "aa")

abbrev file_calls : FileCalls Node
file_calls = record { open_ok = true; fstat_ok = true; malloc_ok = true; parsed = some (some root) }

abbrev no_config : Config Node
no_config = record { doc = none; first_root_child = none }

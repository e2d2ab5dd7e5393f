-- ===== src/Tests/Unterminated.antt =====
-- A file with one block, and the text without a final zero in server/src/WifiNode.c.
use indoor_navigation_system.Base.{
  ◌≡◌, refl, ◌≤◌, pos, ◌++◌, Text, codes, Option, none, some, starts_with, strstr, length, arith,
}
use indoor_navigation_system.Machine.Integers.{integers}
use indoor_navigation_system.LocalConfig.{
  Xml, root_prefix, next_component, find_step, find_loop, find_node, lcfg_get_float_parameter,
}
use indoor_navigation_system.WifiNode.Config.{leaf, read_leaf}
use indoor_navigation_system.WifiNode.Config.Reader.{lcfg_reader}
use indoor_navigation_system.WifiNode.Config.Unterminated.{read_leaf_unterminated}

data Node : Type 0 where
  space floor floor_space block block_space transmit power number : Node

abbrev name_of : Node → Text
name_of floor = codes "wifiFloor1"
name_of block = codes "wifiNodeBlock1"
name_of transmit = codes "powerTransmit"
name_of power = codes "powerAtArbitraryDistance"
name_of _ = codes "text"

abbrev children_of : Node → Option Node
children_of floor = some floor_space
children_of block = some block_space
children_of power = some number
children_of _ = none

abbrev sibling_of : Node → Option Node
sibling_of space = some floor
sibling_of floor_space = some block
sibling_of block_space = some transmit
sibling_of transmit = some power
sibling_of _ = none

abbrev content_of : Node → Option Text
content_of number = some (codes "-60.5")
content_of _ = none

abbrev file : Xml Node
file = record {
  element_name = name_of;
  children = children_of;
  next_element_sibling = sibling_of;
  content = content_of;
  get_content = content_of;
  size = λ n. 8;
}

short_names : (n : Node) → length (name_of n) ≤ 24
short_names space = omega arith
short_names floor = omega arith
short_names floor_space = omega arith
short_names block = omega arith
short_names block_space = omega arith
short_names transmit = omega arith
short_names power = omega arith
short_names number = omega arith

abbrev below : Text
below = codes "wifiFloor1/wifiNodeBlock1/"

read_leaf_unterminated_example :
    read_leaf (lcfg_reader integers file (some space)) (root_prefix ++ below) (leaf 5)
    ≡ read_leaf
        (lcfg_reader integers file (some space))
        (root_prefix ++ below)
        (codes "powerAtArbitraryDistance")
read_leaf_unterminated_example =
    read_leaf_unterminated integers file (some space) short_names below (omega arith)

-- Both read the number.
power_read :
    read_leaf (lcfg_reader integers file (some space)) (root_prefix ++ below) (leaf 5)
    ≡ some (pos 0, integers.strtof (codes "-60.5"))
unfolding read_leaf leaf lcfg_get_float_parameter find_node find_loop find_step next_component
    strstr starts_with
power_read = refl

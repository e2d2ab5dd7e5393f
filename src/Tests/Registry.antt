-- ===== src/Tests/Registry.antt =====
-- The list of nodes of server/src/WifiNode.c, and server/src/localization.cpp on a known device.
use indoor_navigation_system.Base.{
  length-replicate, All-replicate, All, take, ◌≢◌, ◌+ℤ◌, true, get_elem?, if◌then◌else◌, replicate,
  text_eq, ℕ, ℤ, pos, negsuc, codes, List, [], ◌∷◌, ◌≡◌, refl, length, arith, Option, some, none,
}
use indoor_navigation_system.WifiNode.{maximum_number_nodes, zero_node}
use indoor_navigation_system.Localization.Resolve.{
  position_at, Loads, locate_device-IsReady, locate_device_overflow,
}
use indoor_navigation_system.WifiNode.Registry.Lookup.{
  create_ins_node_list_device-insert, insert_id, ids, contains_id,
}
use indoor_navigation_system.Localization.{with_samples, locate_device, fill_node_data_points}
use indoor_navigation_system.WifiNode.Config.{
  read_leaf, search_blocks, search_floors, find_mac_path, load_lcfg_params, ConfigReader,
}
use indoor_navigation_system.WifiNode.Positioning.Run.{IsReady}
use indoor_navigation_system.WifiNode.Registry.Search.{
  find_wifi_node-create, find_wifi_node-IsAnswer, IsAnswer,
}
use indoor_navigation_system.WifiNode.Registry.{create_ins_node_list_device, find_wifi_node}
use indoor_navigation_system.DataStore.Operations.{AccessPointRssiList}
use indoor_navigation_system.Tests.{InsNode, wired_node}
use indoor_navigation_system.Tests.Positioning.{wired_node-IsReady}
use indoor_navigation_system.Machine.Integers.{integers}

abbrev root : InsNode ℤ
root = zero_node integers

abbrev registered : List (InsNode ℤ)
registered = root ∷ wired_node ∷ []

create_ins_node_list_device-insert_example :
    (after : List (InsNode ℤ)) × (create_ins_node_list_device integers registered (codes "8")
      ≡ some (after, if contains_id (codes "8") (ids registered) then none else some 2))
    × (ids after ≡ insert_id (codes "8") (ids registered))
    × (contains_id (codes "8") (ids registered) ≡ true → after ≡ registered)
create_ins_node_list_device-insert_example =
    create_ins_node_list_device-insert integers root (wired_node ∷ []) (codes "8") (omega arith)

find_wifi_node-create_example :
    (after : List (InsNode ℤ)) × (p : Option ℕ) × (create_ins_node_list_device integers registered
        (codes "8")
      ≡ some (after, p))
    × (n : InsNode ℤ) × (k : ℕ) × (find_wifi_node after (codes "8") ≡ some k)
    × (get_elem? after k ≡ some n)
    × (n.dev_name ≡ codes "8")
find_wifi_node-create_example =
    find_wifi_node-create integers root (wired_node ∷ []) (codes "8") (omega arith)

find_wifi_node-IsAnswer_example :
    IsAnswer (codes "7") 0 registered (find_wifi_node registered (codes "7"))
find_wifi_node-IsAnswer_example = find_wifi_node-IsAnswer registered (codes "7")

seven_found : find_wifi_node registered (codes "7") ≡ some 1
unfolding find_wifi_node text_eq
seven_found = refl

-- A configuration in which every block has the same address and every number is 7.
abbrev pub uniform : ConfigReader ℤ
uniform = record {
  get_string = λ path. some (some (codes "aa"));
  get_float = λ path. some (pos 0, pos 7);
}

abbrev one_entry : AccessPointRssiList
one_entry = (record { mac_addr = codes "aa" }, negsuc 49 ∷ negsuc 59 ∷ [])

one_entry-Loads : Loads integers uniform [] one_entry
unfolding fill_node_data_points load_lcfg_params find_mac_path search_floors search_blocks text_eq
    read_leaf with_samples ◌+ℤ◌
one_entry-Loads w = (_, refl)

locate_device-IsReady_example :
    (nodes' : List (InsNode ℤ)) × (located : InsNode ℤ) × (locate_device integers uniform []
        registered
        (codes "7")
        (one_entry ∷ one_entry ∷ one_entry ∷ [])
      ≡ some (nodes', position_at integers located))
    × (get_elem? nodes' 1 ≡ some located)
    × IsReady located
    × (length nodes' ≡ 2)
    × ((j : ℕ) → j ≢ 1 → get_elem? nodes' j ≡ get_elem? registered j)
locate_device-IsReady_example =
    locate_device-IsReady integers uniform [] registered (codes "7") one_entry
      (one_entry ∷ one_entry ∷ []) 1 wired_node seven_found refl wired_node-IsReady (omega arith)
      (one_entry-Loads, (one_entry-Loads, (one_entry-Loads, tt)))

sixteen-Load : All (Loads integers uniform []) (replicate 16 one_entry)
sixteen-Load = All-replicate (Loads integers uniform []) 16 one_entry one_entry-Loads

locate_device_overflow_example :
    (nodes' : List (InsNode ℤ)) × (located : InsNode ℤ) × (locate_device integers uniform []
        registered
        (codes "7")
        (take maximum_number_nodes (replicate 16 one_entry))
      ≡ some (nodes', position_at integers located))
    × (locate_device integers uniform [] registered (codes "7") (replicate 16 one_entry) ≡ none)
locate_device_overflow_example =
    locate_device_overflow integers uniform [] registered (codes "7") (replicate 16 one_entry) 1
      wired_node seven_found refl wired_node-IsReady (omega (arith, length-replicate 16 one_entry))
      sixteen-Load

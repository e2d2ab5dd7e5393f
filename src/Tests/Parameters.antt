-- ===== src/Tests/Parameters.antt =====
-- The parameters and the readings of an access point, on a configuration that has the same number
-- everywhere but for the power at the distance.
use indoor_navigation_system.Base.{
  ◌++◌, decimal, if◌then◌else◌, ◌∷◌, text_eq, ℤ, pos, codes, [], ◌≡◌, refl, arith, some, length,
  length-replicate, negsuc,
}
use indoor_navigation_system.WifiNode.Config.{
  search_blocks, search_floors, read_leaf, load_lcfg_params, ConfigReader, find_mac_path,
  lcfg_leaf_str,
}
use indoor_navigation_system.WifiNode.Config.Load.{
  load_lcfg_params_complete, loaded, IsComplete, Block,
}
use indoor_navigation_system.Machine.Integers.{integers}
use indoor_navigation_system.WifiNode.{zero_wifi, WifiParams, number_samples, zero_samples}
use indoor_navigation_system.DataStore.{AccessPoint}
use indoor_navigation_system.Localization.{fill_node_data_points}
use indoor_navigation_system.Localization.Distances.{
  measured, reference_distance, fill_node_data_points-measured,
}

-- A reader with the same address everywhere, and the same number but for one path.
abbrev sevens : ConfigReader ℤ
sevens = record {
  get_string = λ path. some (some (codes "aa"));
  get_float = λ path. some (
    pos 0,
    if text_eq path (lcfg_leaf_str 1 1 ++ codes "powerAtArbitraryDistancemacAddress")
        then pos 9
        else pos 7,
  );
}

abbrev seven_block : Block ℤ
seven_block = record {
  position = record { x = pos 7; y = pos 7; z = pos 7 };
  d_distance = pos 7;
  power_do = pos 7;
  power_d = pos 9;
  mac_address = codes "aa";
}

abbrev named : WifiParams ℤ
named = record (zero_wifi integers) { mac_address = some (codes "aa") }

sevens_found : find_mac_path sevens (codes "aa") ≡ some (some (lcfg_leaf_str 1 1))
unfolding find_mac_path search_floors search_blocks text_eq
sevens_found = refl

sevens-IsComplete : IsComplete sevens (lcfg_leaf_str 1 1) seven_block
unfolding read_leaf text_eq lcfg_leaf_str decimal
sevens-IsComplete = record {
  x = refl;
  y = refl;
  z = refl;
  distance = refl;
  transmit = refl;
  arbitrary = refl;
  address = refl;
}

load_lcfg_params_complete_example :
    load_lcfg_params sevens [] named ≡ some (0, loaded sevens named seven_block)
load_lcfg_params_complete_example =
    load_lcfg_params_complete sevens [] (codes "aa") (some (lcfg_leaf_str 1 1)) named seven_block
      refl sevens_found sevens-IsComplete

samples_full : length (zero_samples integers) ≡ number_samples
unfolding zero_samples
samples_full = length-replicate number_samples (pos 0)

abbrev aa : AccessPoint
aa = record { mac_addr = codes "aa" }

fill_node_data_points-measured_example :
    (filled : WifiParams ℤ) × (fill_node_data_points integers sevens []
        (zero_wifi integers)
        (aa, negsuc 49 ∷ negsuc 59 ∷ [])
      ≡ some filled)
    × ((measured integers filled).position ≡ seven_block.position)
    × ((measured integers filled).distance
        ≡ reference_distance integers seven_block (negsuc 49 ∷ negsuc 59 ∷ []))
fill_node_data_points-measured_example =
    fill_node_data_points-measured integers sevens [] (zero_wifi integers) aa
      (negsuc 49 ∷ negsuc 59 ∷ []) (some (lcfg_leaf_str 1 1)) seven_block samples_full (omega arith)
      sevens_found sevens-IsComplete

-- ===== src/Tests/Nearest.antt =====
-- Three access points around device 7, located by server/src/localization.cpp and
-- server/src/WifiNode.c with an arithmetic that has a value that is not a number.
use indoor_navigation_system.WifiNode.Config.{
  read_leaf, ConfigReader, find_mac_path, lcfg_leaf_str, search_floors, search_blocks,
}
use mathlib.Core.List.{Perm}
use indoor_navigation_system.Base.{
  ℕ, ◌≡◌, refl, ℤ, pos, negsuc, ◌+ℤ◌, ◌-ℤ◌, ◌*ℤ◌, ◌/ℤ◌, Text, codes, text_eq, starts_with, Option,
  none, some, List, [], ◌∷◌, ◌++◌, map, drop, All, All-replicate, length-replicate, replicate,
  arith, if◌then◌else◌, false, decimal,
}
use indoor_navigation_system.Machine.{Machine}
use indoor_navigation_system.Machine.Laws.{IsOrdered}
use indoor_navigation_system.Machine.Nan.{with_nan, with_nan-IsOrdered, IsNumber}
use indoor_navigation_system.WifiNode.{
  Callback, InsNode, WifiParams, zero_wifi, zero_node, zero_samples, number_samples,
  maximum_number_nodes,
}
use indoor_navigation_system.WifiNode.Kalman.{filter_samples}
use indoor_navigation_system.WifiNode.Kalman.Fold.{IsSampled}
use indoor_navigation_system.WifiNode.PathLoss.{wifi_distance, distance_by, path_loss_factor}
use indoor_navigation_system.WifiNode.Trilateration.{three_circles}
use indoor_navigation_system.WifiNode.Positioning.Run.{IsReady}
use indoor_navigation_system.WifiNode.Ordering.Sorted.{IsAscending}
use indoor_navigation_system.WifiNode.Ordering.Unmeasured.{IsNan}
use indoor_navigation_system.WifiNode.Config.Load.{Block, IsComplete}
use indoor_navigation_system.WifiNode.Registry.{find_wifi_node, find_from}
use indoor_navigation_system.Localization.{locate_device}
use indoor_navigation_system.Localization.Distances.{measured}
use indoor_navigation_system.Localization.Nearest.{Heard, IsHeard, spot, reference_spot, widened}
use indoor_navigation_system.Localization.Nearest.Located.{IsNear, locate_device-IsAscending}

-- A power is larger the larger its exponent is.
abbrev sum : Option ℤ → Option ℤ → Option ℤ
sum (some a) (some b) = some (a +ℤ b)
sum _ _ = none

abbrev growing : Machine (Option ℤ) (Option ℤ)
growing = record with_nan { powf = sum }

growing-IsOrdered : IsOrdered growing IsNumber
growing-IsOrdered = record {
  gt_asymm = with_nan-IsOrdered.gt_asymm;
  le_trans = with_nan-IsOrdered.le_trans;
  tenth_one_side = with_nan-IsOrdered.tenth_one_side;
  tenth_asymm = with_nan-IsOrdered.tenth_asymm;
}

abbrev in_block : ℕ → Text → Text → Text → Text
in_block k path this other = if starts_with path (lcfg_leaf_str 1 k) then this else other

-- A configuration with three blocks.
abbrev corners : ConfigReader (Option ℤ)
corners = record {
  get_string = λ path.
      some (some (in_block 1 path (codes "aa") (in_block 2 path (codes "bb") (codes "cc"))));
  get_float = λ path. some (
    pos 0,
    if starts_with path (lcfg_leaf_str 1 1 ++ codes "_3D")
        then some (pos 1)
        else if starts_with path (lcfg_leaf_str 1 2 ++ codes "_3D")
        then some (pos 2)
        else if starts_with path (lcfg_leaf_str 1 3 ++ codes "_3D")
        then some (pos 3)
        else if starts_with path (lcfg_leaf_str 1 1 ++ codes "powerAtArbitraryDistancemac")
        then some (pos 0)
        else if starts_with path (lcfg_leaf_str 1 2 ++ codes "powerAtArbitraryDistancemac")
        then some (pos 0)
        else if starts_with path (lcfg_leaf_str 1 3 ++ codes "powerAtArbitraryDistancemac")
        then some (pos 0)
        else some (pos 30),
  );
}

abbrev block_at : ℤ → Text → Block (Option ℤ)
block_at k mac = record {
  position = record { x = some k; y = some k; z = some k };
  d_distance = some (pos 30);
  power_do = some (pos 30);
  power_d = some (pos 0);
  mac_address = mac;
}

abbrev heard : List (Heard growing corners [])
heard =
    ((record { mac_addr = codes "aa" }, negsuc 89 ∷ []), block_at (pos 1) (codes "aa"))
    ∷ (
      (record { mac_addr = codes "bb" }, negsuc 39 ∷ negsuc 49 ∷ []),
      block_at (pos 2) (codes "bb"),
    )
    ∷ ((record { mac_addr = codes "cc" }, negsuc 69 ∷ []), block_at (pos 3) (codes "cc"))
    ∷ []

abbrev seven : InsNode (Option ℤ)
seven = record (zero_node growing) {
  dev_name = codes "7";
  filter_process = Callback.kalman_process;
  rssi2_power_process = Callback.rssi2_power;
  power2distance_process = Callback.power2distance;
  trilateration_process = Callback.trilateration_process;
}

seven-IsReady : IsReady seven
unfolding zero_samples
seven-IsReady = record {
  wired = record { filters = refl; shifts = refl; measures = refl; locates = refl };
  fifteen = length-replicate maximum_number_nodes _;
  sampled =
      All-replicate IsSampled maximum_number_nodes (zero_wifi growing)
        (record { full = length-replicate number_samples _; within = omega arith });
}

heard-IsHeard : All (IsHeard growing corners []) heard
unfolding find_mac_path search_floors search_blocks text_eq starts_with lcfg_leaf_str decimal
    read_leaf
heard-IsHeard =
    let first : IsComplete corners (lcfg_leaf_str 1 1) (block_at (pos 1) (codes "aa")) = record {
      x = refl;
      y = refl;
      z = refl;
      distance = refl;
      transmit = refl;
      arbitrary = refl;
      address = refl;
    } in
    let second : IsComplete corners (lcfg_leaf_str 1 2) (block_at (pos 2) (codes "bb")) = record {
      x = refl;
      y = refl;
      z = refl;
      distance = refl;
      transmit = refl;
      arbitrary = refl;
      address = refl;
    } in
    let third : IsComplete corners (lcfg_leaf_str 1 3) (block_at (pos 3) (codes "cc")) = record {
      x = refl;
      y = refl;
      z = refl;
      distance = refl;
      transmit = refl;
      arbitrary = refl;
      address = refl;
    } in
    (
      (omega arith, some (lcfg_leaf_str 1 1), refl, first),
      (
        (omega arith, some (lcfg_leaf_str 1 2), refl, second),
        ((omega arith, some (lcfg_leaf_str 1 3), refl, third), tt),
      ),
    )

heard-IsNear :
    All
      (IsNear growing corners [] growing-IsOrdered)
      (map (reference_spot growing corners []) heard)
unfolding ◌+ℤ◌ ◌-ℤ◌ ◌*ℤ◌ ◌/ℤ◌
heard-IsNear = ((tt, refl), ((tt, refl), ((tt, refl), tt)))

no_number_above : (a : Option ℤ) → growing.gt a none ≡ false
no_number_above none = refl
no_number_above (some a) = refl

unheard-IsNan : IsNan growing (measured growing (zero_wifi growing))
unfolding wifi_distance distance_by path_loss_factor filter_samples ◌+ℤ◌ ◌-ℤ◌ ◌*ℤ◌ ◌/ℤ◌
unheard-IsNan = record { above = no_number_above; below = λ a. refl; far = refl; near = refl }

others-IsNan : All (λ w. IsNan growing (measured growing w)) (drop 3 seven.wifi_access_point_node)
unfolding replicate
others-IsNan =
    All-replicate (λ w. IsNan growing (measured growing w)) 12 (zero_wifi growing) unheard-IsNan

seven_found : find_wifi_node (zero_node growing ∷ seven ∷ []) (codes "7") ≡ some 1
unfolding find_wifi_node find_from text_eq
seven_found = refl

locate_device-IsAscending_example :
    (nodes' : List (InsNode (Option ℤ))) × (w_1 : WifiParams (Option ℤ)) × (w_2 : WifiParams
      (Option ℤ))
    × (w_3 : WifiParams (Option ℤ)) × (rest : List (WifiParams (Option ℤ))) × Perm
        (map (spot growing corners []) (w_1 ∷ w_2 ∷ w_3 ∷ rest))
        (map (reference_spot growing corners []) heard)
    × IsAscending growing (w_1 ∷ w_2 ∷ w_3 ∷ rest)
    × (locate_device growing corners []
          (zero_node growing ∷ seven ∷ [])
          (codes "7")
          (map (λ h. h.0) heard)
        ≡ some (nodes', widened growing (three_circles growing w_1 w_2 w_3)))
locate_device-IsAscending_example =
    locate_device-IsAscending growing corners [] growing-IsOrdered (zero_node growing ∷ seven ∷ [])
      (codes "7") 1 seven heard seven_found refl seven-IsReady (omega arith) (omega arith)
      heard-IsHeard heard-IsNear others-IsNan

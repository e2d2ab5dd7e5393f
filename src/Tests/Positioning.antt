-- ===== src/Tests/Positioning.antt =====
-- The positioning of server/src/WifiNode.c on nodes with integer distances.
use indoor_navigation_system.Base.{
  All-replicate, some, ℤ, pos, negsuc, codes, List, [], ◌∷◌, ◌≡◌, refl, length, length-replicate,
  arith,
}
use indoor_navigation_system.Localization.Samples.{filter_samples-readings, initial}
use indoor_navigation_system.WifiNode.Kalman.Fold.{update, estimate_of, IsSampled}
use indoor_navigation_system.WifiNode.Ordering.{order_rssi_ascend}
use mathlib.Core.List.{foldl, Perm}
use indoor_navigation_system.WifiNode.Positioning.Run.{get_cartesian_position-IsReady, IsReady}
use indoor_navigation_system.WifiNode.{
  maximum_number_nodes, number_samples, zero_wifi, zero_samples,
}
use indoor_navigation_system.WifiNode.Kalman.{filter_samples}
use indoor_navigation_system.WifiNode.Ordering.Sorted.{order_rssi_ascend-IsAscending, IsAscending}
use indoor_navigation_system.WifiNode.Ordering.Permutation.{order_rssi_ascend-Perm}
use indoor_navigation_system.Localization.{with_samples}
use indoor_navigation_system.WifiNode.Positioning.{get_cartesian_position}
use indoor_navigation_system.Tests.{InsNode, corner_node, wired_node}
use indoor_navigation_system.Machine.Integers.{integers, integers-IsOrdered}

order_rssi_ascend-Perm_example :
    Perm
      (order_rssi_ascend integers corner_node).wifi_access_point_node
      corner_node.wifi_access_point_node
order_rssi_ascend-Perm_example = order_rssi_ascend-Perm integers corner_node

order_rssi_ascend-IsAscending_example :
    IsAscending integers (order_rssi_ascend integers corner_node).wifi_access_point_node
order_rssi_ascend-IsAscending_example =
    order_rssi_ascend-IsAscending integers integers-IsOrdered corner_node (omega arith)
      (tt, (tt, (tt, (tt, tt))))

samples_full : length (zero_samples integers) ≡ number_samples
unfolding zero_samples
samples_full = length-replicate number_samples (pos 0)

abbrev two_readings : List ℤ
two_readings = negsuc 49 ∷ negsuc 59 ∷ []

filter_samples-readings_example :
    let filled =
      with_samples integers (zero_wifi integers) (record { mac_addr = codes "aa" }, two_readings) in
    let filtered = filter_samples integers filled.no_sample_data filled in
    (estimate_of filtered ≡ foldl (update integers) (initial integers) (negsuc 49 ∷ negsuc 59 ∷ []))
    × (filtered.no_processed_sample_data ≡ 2)
filter_samples-readings_example =
    filter_samples-readings integers (zero_wifi integers) (record { mac_addr = codes "aa" })
      two_readings samples_full (omega arith)

zero_wifi-IsSampled : IsSampled (zero_wifi integers)
zero_wifi-IsSampled = record { full = samples_full; within = omega arith }

pub wired_node-IsReady : IsReady wired_node
wired_node-IsReady = record {
  wired = record { filters = refl; shifts = refl; measures = refl; locates = refl };
  fifteen = length-replicate maximum_number_nodes _;
  sampled = All-replicate IsSampled maximum_number_nodes (zero_wifi integers) zero_wifi-IsSampled;
}

get_cartesian_position-IsReady_example :
    (n' : InsNode ℤ) × (get_cartesian_position integers wired_node ≡ some n') × IsReady n'
get_cartesian_position-IsReady_example =
    get_cartesian_position-IsReady integers wired_node wired_node-IsReady

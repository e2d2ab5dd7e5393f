-- ===== src/Localization/Nearest.antt =====
-- From the readings of a device to its position: server/src/localization.cpp and
-- server/src/WifiNode.c from end to end.
use indoor_navigation_system.Base.{
  All-map, All-implies, ℕ, zero, suc, ◌≤◌, ◌≡◌, refl, ap, ◌∙◌, sym, subst, ℤ, pos, true, Text,
  Option, none, some, List, [], ◌∷◌, ◌++◌, map, length, drop, All, set, get_elem?, get_or,
  length-Perm, length-map, arith,
}
use indoor_navigation_system.WifiNode.Positioning.Run.{
  get_cartesian_position_stages, filtered, IsWired, IsReady, located,
}
use indoor_navigation_system.WifiNode.Ordering.Permutation.{order_from-Perm}
use indoor_navigation_system.Localization.{
  get_cartesian_position, fill_access_points, fill_nodes_data_points, locate_device,
}
pub mod Located
use mathlib.Core.List.{map-append, Perm}
use indoor_navigation_system.WifiNode.PathLoss.{
  shift_power, wifi_distance, power2distance, rssi2_power,
}
use indoor_navigation_system.WifiNode.{
  destroy_ins_node, Coordinates, WifiParams, InsNode, maximum_number_nodes, number_samples,
}
use indoor_navigation_system.WifiNode.Ordering.{order_rssi_ascend, order_from}
use mathlib.Core.List.Perm
use indoor_navigation_system.Machine.{Machine}
use indoor_navigation_system.Machine.Laws.{IsOrdered}
use indoor_navigation_system.WifiNode.Trilateration.{three_circles, trilateration_process}
use indoor_navigation_system.WifiNode.Kalman.Fold.{IsSampled}
use indoor_navigation_system.WifiNode.Ordering.Sorted.{IsAscending}
use indoor_navigation_system.WifiNode.Ordering.Unmeasured.{IsNan, order_rssi_ascend_unmeasured}
use indoor_navigation_system.WifiNode.Config.{ConfigReader, find_mac_path, path_or}
use indoor_navigation_system.WifiNode.Config.Load.{Block, IsComplete}
use indoor_navigation_system.WifiNode.Registry.{find_wifi_node}
use indoor_navigation_system.DataStore.{Position}
use indoor_navigation_system.DataStore.Operations.{AccessPointRssiList}
use indoor_navigation_system.Localization.Distances.{
  measured, reference_distance, fill_node_data_points-measured,
}

module _ {F D : Type 0} (m : Machine F D) (reader : ConfigReader F) (unwritten : Text) where
  -- An access point with its readings and the block of the configuration that describes it.
  abbrev pub Heard : Type 0
  Heard = AccessPointRssiList × Block F

  -- The block is found under the address and complete, and the readings fit the array.
  abbrev pub IsHeard : Heard → Type 0
  IsHeard ((access_point, series), b) =
      (length series ≤ number_samples)
      × (found : Option Text) × (find_mac_path reader access_point.mac_addr ≡ some found)
      × IsComplete reader (path_or reader unwritten found) b

  -- A place and the distance to it.
  abbrev pub Spot : Type 0
  Spot = Coordinates F × F

  abbrev pub spot : WifiParams F → Spot
  spot w = (w.position, w.distance)

  -- The place of the block, and the distance by the path-loss model for the filtered readings.
  abbrev pub reference_spot : Heard → Spot
  reference_spot ((access_point, series), b) = (b.position, reference_distance m b series)

  pub fill_access_points-reference :
      (ws : List (WifiParams F)) (heard : List Heard)
      → length heard ≤ length ws
      → All IsSampled ws
      → All IsHeard heard
      → (filled : List (WifiParams F)) × (fill_access_points m reader unwritten ws
            (map (λ (h : Heard). h.0) heard)
          ≡ some (filled ++ drop (length heard) ws))
        × (map spot (map (measured m) filled) ≡ map reference_spot heard)
  unfolding fill_access_points
  fill_access_points-reference ws [] fits sampled known = ([], refl, refl)
  fill_access_points-reference [] (h ∷ heard) fits sampled known = elim fits [ ]
  fill_access_points-reference (w ∷ ws) (h ∷ heard) fits (s, sampled)
        ((short, found, path, complete), known) =
      let (w', fill, position, distance) =
        fill_node_data_points-measured m reader unwritten w h.0.0 h.0.1 found h.1 s.full short path
          complete in
      let (filled, fills, same) =
        fill_access_points-reference ws heard (omega (arith, fits)) sampled known in
      (w' ∷ filled, rw (fill, fills) refl, λ i. (position i, distance i) ∷ same i)

module _ {F D : Type 0} (m : Machine F D) where
  map-measured :
      (ws : List (WifiParams F))
      → map (wifi_distance m) (map (shift_power m) (map (filtered m) ws)) ≡ map (measured m) ws
  map-measured [] = refl
  map-measured (w ∷ ws) = ap (◌∷◌ (measured m w)) (map-measured ws)

  -- The node that the stages up to the distances leave.
  abbrev pub measured_node : InsNode F → InsNode F
  measured_node n = power2distance m (
      rssi2_power m
        (record n { wifi_access_point_node = map (filtered m) n.wifi_access_point_node }))

  pub measured_node-measured :
      (n : InsNode F)
      → (measured_node n).wifi_access_point_node ≡ map (measured m) n.wifi_access_point_node
  unfolding power2distance rssi2_power
  measured_node-measured n = map-measured n.wifi_access_point_node

  -- The position that the positioning of a wired node leaves, by the three access points in front of
  -- the sorted array.
  pub get_cartesian_position-front :
      (n : InsNode F) (w_1 w_2 w_3 : WifiParams F) {rest : List (WifiParams F)}
      → IsWired n
      → (order_rssi_ascend m (measured_node n)).wifi_access_point_node ≡ w_1 ∷ w_2 ∷ w_3 ∷ rest
      → (n' : InsNode F) × (get_cartesian_position m n ≡ some n')
        × (n'.node_cart_position ≡ three_circles m w_1 w_2 w_3)
  unfolding destroy_ins_node trilateration_process
  get_cartesian_position-front n w_1 w_2 w_3 wired front =
      (destroy_ins_node m (located m n), get_cartesian_position_stages m n wired, rw front refl)

  abbrev pub widened : Coordinates F → Position D
  widened p = record { x = m.widen p.x; y = m.widen p.y; z = m.widen p.z }

-- ===== src/WifiNode/Trilateration.antt =====
-- `trilateration_process` of server/src/WifiNode.c: the position of a node from the positions and
-- distances of its three nearest access points.
pub mod Unlocated
use indoor_navigation_system.Base.{pos, get_or}
use indoor_navigation_system.Machine.{Machine}
use indoor_navigation_system.WifiNode.{Coordinates, WifiParams, InsNode, no_floors, zero_wifi}
use indoor_navigation_system.WifiNode.Ordering.{order_rssi_ascend}

module _ {F D : Type 0} (m : Machine F D) where
  open m use {int_to_float, ◌⊕◌, ◌⊖◌, ◌⊗◌, ◌⊘◌, widen, narrow, round}

  infixl 65 ◌⊕◌ ◌⊖◌
  infixl 70 ◌⊗◌ ◌⊘◌
  abbrev two : F
  two = int_to_float (pos 2)

  -- The body after the sort, for the first three access points.
  unfoldable pub three_circles : WifiParams F → WifiParams F → WifiParams F → Coordinates F
  three_circles w_1 w_2 w_3 =
      let x_1 = w_1.position.x in
      let y_1 = w_1.position.y in
      let z_1 = w_1.position.z in
      let x_2 = w_2.position.x in
      let y_2 = w_2.position.y in
      let z_2 = w_2.position.z in
      let x_3 = w_3.position.x in
      let y_3 = w_3.position.y in
      let z_3 = w_3.position.z in
      let d_1 = w_1.distance in
      let d_2 = w_2.distance in
      let d_3 = w_3.distance in
      let a = (x_1 ⊗ x_1) ⊕ (y_1 ⊗ y_1) ⊖ (d_1 ⊗ d_1) in
      let b = (x_2 ⊗ x_2) ⊕ (y_2 ⊗ y_2) ⊖ (d_2 ⊗ d_2) in
      let c = (x_3 ⊗ x_3) ⊕ (y_3 ⊗ y_3) ⊖ (d_3 ⊗ d_3) in
      let x_32 = x_3 ⊖ x_2 in
      let x_13 = x_1 ⊖ x_3 in
      let x_21 = x_2 ⊖ x_1 in
      let y_32 = y_3 ⊖ y_2 in
      let y_13 = y_1 ⊖ y_3 in
      let y_21 = y_2 ⊖ y_1 in
      record {
        x = (a ⊗ y_32 ⊕ b ⊗ y_13 ⊕ c ⊗ y_21) ⊘ (two ⊗ (x_1 ⊗ y_32 ⊕ x_2 ⊗ y_13 ⊕ x_3 ⊗ y_21));
        y = (a ⊗ x_32 ⊕ b ⊗ x_13 ⊕ c ⊗ x_21) ⊘ (two ⊗ (y_1 ⊗ x_32 ⊕ y_2 ⊗ x_13 ⊕ y_3 ⊗ x_21));
        z = narrow (round (widen ((z_1 ⊕ z_2 ⊕ z_3) ⊘ int_to_float (pos no_floors))));
      }

  -- The array has fifteen elements, so the three reads are in range.
  unfoldable pub trilateration_process : InsNode F → InsNode F
  unfolding three_circles
  trilateration_process n =
      let ordered = order_rssi_ascend m n in
      let ws = ordered.wifi_access_point_node in
      record ordered {
        node_cart_position =
            three_circles (get_or ws 0 (zero_wifi m)) (get_or ws 1 (zero_wifi m))
              (get_or ws 2 (zero_wifi m));
      }

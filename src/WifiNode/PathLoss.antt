-- ===== src/WifiNode/PathLoss.antt =====
-- `rssi2Power` and `power2distance` of server/src/WifiNode.c: the path-loss model that turns an
-- estimated power into a distance.
use indoor_navigation_system.Base.{pos, map}
use indoor_navigation_system.Machine.{Machine}
use indoor_navigation_system.WifiNode.{WifiParams, InsNode, float_zero}

module _ {F D : Type 0} (m : Machine F D) where
  open m use {
    int_to_float, ◌⊕◌, ◌⊖◌, ◌⊗◌, ◌⊘◌, powf, widen, narrow, int_to_double, double_mul, log10,
  }

  infixl 65 ◌⊕◌ ◌⊖◌
  infixl 70 ◌⊗◌ ◌⊘◌
  -- The power is shifted by the constant `powerShifter`, 0.0.
  abbrev pub shift_power : WifiParams F → WifiParams F
  shift_power w = record w { est_received_power = w.est_received_power ⊕ float_zero m }

  unfoldable pub rssi2_power : InsNode F → InsNode F
  rssi2_power n = record n { wifi_access_point_node = map shift_power n.wifi_access_point_node }

  -- The exponent of the path loss, from the powers at the two calibration distances.
  unfoldable pub path_loss_factor : WifiParams F → F
  path_loss_factor w =
      let p = w.path_loss in
      (p.power_do ⊖ p.power_d)
      ⊘ narrow (double_mul (int_to_double (pos 10)) (log10 (widen (p.d_distance ⊘ p.do_distance))))

  unfoldable pub distance_by : F → WifiParams F → F
  distance_by factor w =
      let p = w.path_loss in
      p.do_distance
      ⊗ powf (int_to_float (pos 10))
          ((p.power_do ⊖ w.est_received_power) ⊘ (int_to_float (pos 10) ⊗ factor))

  unfoldable pub wifi_distance : WifiParams F → WifiParams F
  unfolding path_loss_factor distance_by
  wifi_distance w =
      let factor = path_loss_factor w in
      record w {
        path_loss = record (w.path_loss) { n_factor = factor };
        distance = distance_by factor w;
      }

  unfoldable pub power2distance : InsNode F → InsNode F
  unfolding wifi_distance
  power2distance n = record n {
    wifi_access_point_node = map wifi_distance n.wifi_access_point_node;
  }

-- ===== src/WifiNode/Kalman.antt =====
-- `kalmanProcess` of server/src/WifiNode.c, the loop of `computePLProcess` that runs it on the samples
-- of one access point, and the filter as a fold over the samples.
pub mod Fold
use indoor_navigation_system.Base.{ℕ, zero, suc, ◌+◌, pos, ltb, if◌then◌else◌, get_or}
use indoor_navigation_system.Machine.{Machine}
use indoor_navigation_system.WifiNode.{
  WifiParams, number_samples, initial_error_measurement, float_zero,
}

module _ {F D : Type 0} (m : Machine F D) where
  open m use {int_to_float, ◌⊕◌, ◌⊖◌, ◌⊗◌, ◌⊘◌}

  infixl 65 ◌⊕◌ ◌⊖◌
  infixl 70 ◌⊗◌ ◌⊘◌
  unfoldable pub kalman_process : WifiParams F → WifiParams F
  kalman_process w =
      if ltb w.no_processed_sample_data number_samples
      then (let p = w.wifi_init_params in
          let error = p.initial_error_estimate in
          let gain = error ⊘ (error ⊕ int_to_float initial_error_measurement) in
          let sample = get_or w.rssi_sample_data w.no_processed_sample_data (float_zero m) in
          record w {
            est_received_power = w.est_received_power ⊕ (gain ⊗ (sample ⊖ w.est_received_power));
            wifi_init_params = record p {
              kalman_gain = gain;
              initial_error_estimate = (int_to_float (pos 1) ⊖ gain) ⊗ error;
            };
            no_processed_sample_data = w.no_processed_sample_data + 1;
          })
      else w

  -- The inner loop of `computePLProcess`. The filter does not change the loop's bound.
  unfoldable pub filter_samples : ℕ → WifiParams F → WifiParams F
  filter_samples zero w = w
  filter_samples (suc n) w = filter_samples n (kalman_process w)

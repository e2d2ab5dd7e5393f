-- ===== src/Localization/Distances.antt =====
-- From the readings of an access point to its distance: `FillNodeDataPoints` of
-- server/src/localization.cpp, then the filter and the path-loss model of server/src/WifiNode.c.
use mathlib.Core.Option
use mathlib.Core.List.{foldl}
use indoor_navigation_system.Base.{
  ℕ, zero, suc, ◌≤◌, ◌≡◌, refl, ap, ◌∙◌, ℤ, pos, Text, Option, some, List, map, length, ltb,
  Bool-cases, inl, inr, arith,
}
use indoor_navigation_system.Machine.{Machine}
use indoor_navigation_system.WifiNode.{WifiParams, number_samples, init_kalman_params}
use indoor_navigation_system.WifiNode.Kalman.{kalman_process, filter_samples}
use indoor_navigation_system.WifiNode.Kalman.Fold.{
  Estimate, update, filter_samples-IsFiltered, IsSampled,
}
use indoor_navigation_system.WifiNode.PathLoss.{
  shift_power, wifi_distance, path_loss_factor, distance_by,
}
use indoor_navigation_system.WifiNode.Positioning.Run.{filtered}
use indoor_navigation_system.WifiNode.Config.{ConfigReader, find_mac_path, path_or}
use indoor_navigation_system.WifiNode.Config.Load.{
  Block, IsComplete, loaded, load_lcfg_params_complete,
}
use indoor_navigation_system.DataStore.{AccessPoint}
use indoor_navigation_system.Localization.{with_samples, fill_node_data_points}
use indoor_navigation_system.Localization.Samples.{
  initial, copy_samples-map, with_samples-IsSampled,
}

module _ {F D : Type 0} (m : Machine F D) where
  open m use {
    int_to_float, ◌⊕◌, ◌⊖◌, ◌⊗◌, ◌⊘◌, powf, widen, narrow, int_to_double, double_mul, log10,
  }

  infixl 65 ◌⊕◌ ◌⊖◌
  infixl 70 ◌⊗◌ ◌⊘◌
  kalman_process-keeps :
      (w : WifiParams F)
      → ((kalman_process m w).position ≡ w.position)
        × ((kalman_process m w).path_loss ≡ w.path_loss)
  unfolding kalman_process
  kalman_process-keeps w = elim (Bool-cases (ltb w.no_processed_sample_data number_samples)) [
    | inl more ↦ rw more (refl, refl)
    | inr full ↦ rw full (refl, refl)
  ]

  filter_samples-keeps :
      (n : ℕ) (w : WifiParams F)
      → ((filter_samples m n w).position ≡ w.position)
        × ((filter_samples m n w).path_loss ≡ w.path_loss)
  unfolding filter_samples
  filter_samples-keeps zero w = (refl, refl)
  filter_samples-keeps (suc n) w =
      let (p, l) = filter_samples-keeps n (kalman_process m w) in
      let (p', l') = kalman_process-keeps w in (p ∙ p', l ∙ l')

  -- The power of an access point by its readings: the fold of the Kalman update.
  abbrev pub power_of : List ℤ → F
  power_of series = (foldl (update m) (initial m) (map int_to_float series)).power

  -- The distance by the path-loss model, from the parameters of the access point's block and a power.
  abbrev pub distance_of : Block F → F → F
  distance_of b power =
      let ten = int_to_float (pos 10) in
      let one = int_to_float (pos 1) in
      let factor =
        (b.power_do ⊖ b.power_d)
        ⊘ narrow (double_mul (int_to_double (pos 10)) (log10 (widen (b.d_distance ⊘ one)))) in
      one ⊗ powf ten ((b.power_do ⊖ (power ⊕ int_to_float (pos 0))) ⊘ (ten ⊗ factor))

  abbrev pub reference_distance : Block F → List ℤ → F
  reference_distance b series = distance_of b (power_of series)

  -- What the positioning makes of an access point before the sort.
  abbrev pub measured : WifiParams F → WifiParams F
  measured w = wifi_distance m (shift_power m (filtered m w))

  module _ (reader : ConfigReader F) (unwritten : Text) where
    loaded-power :
        (w : WifiParams F) (access_point : AccessPoint) (series : List ℤ) (b : Block F)
        → length w.rssi_sample_data ≡ number_samples
        → length series ≤ number_samples
        → (filtered m
            (loaded reader (with_samples m w (access_point, series)) b)).est_received_power
          ≡ power_of series
    unfolding with_samples init_kalman_params
    loaded-power w access_point series b full fits =
        let filled = loaded reader (with_samples m w (access_point, series)) b in
        let s = with_samples-IsSampled m w (access_point, series) full in
        let sampled : IsSampled filled = record { full = s.full; within = s.within } in
        let (folded, _, _) = filter_samples-IsFiltered m (length series) filled sampled in
        ap (λ (e : Estimate F). e.power)
          (folded
            ∙ ap (foldl (update m) (initial m)) (
                copy_samples-map m 0 series w.rssi_sample_data (int_to_float (pos 0)) full
                  (omega arith)))

    -- An access point with up to 4000 readings whose block of the configuration is found and
    -- complete is filled, and the positioning then places it where the block says, at the distance
    -- that the path-loss model gives for the filtered readings.
    pub fill_node_data_points-measured :
        (w : WifiParams F) (access_point : AccessPoint) (series : List ℤ) (found : Option Text)
        (b : Block F)
        → length w.rssi_sample_data ≡ number_samples
        → length series ≤ number_samples
        → find_mac_path reader access_point.mac_addr ≡ some found
        → IsComplete reader (path_or reader unwritten found) b
        → (filled : WifiParams F) × (fill_node_data_points m reader unwritten w
              (access_point, series)
            ≡ some filled)
          × ((measured filled).position ≡ b.position)
          × ((measured filled).distance ≡ reference_distance b series)
    unfolding fill_node_data_points wifi_distance distance_by path_loss_factor with_samples
        init_kalman_params
    fill_node_data_points-measured w access_point series found b full fits path complete =
        let sampled = with_samples m w (access_point, series) in
        let filled = loaded reader sampled b in
        let (position, path_loss) = filter_samples-keeps (length series) filled in
        let power = loaded-power w access_point series b full fits in
        (
          filled,
          ap (Option.map (λ (r : ℕ × WifiParams F). r.1)) (
              load_lcfg_params_complete reader unwritten access_point.mac_addr found sampled b refl
                path complete),
          position,
          rw (path_loss, power) refl,
        )

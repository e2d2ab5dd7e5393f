-- ===== src/Localization/Samples.antt =====
-- The readings of an access point, from server/src/localization.cpp through the filter of
-- server/src/WifiNode.c.
use indoor_navigation_system.Base.{
  sym, ℕ, suc, ◌+◌, ◌%◌, ◌≤◌, ◌<◌, ◌≡◌, refl, ap, ◌∙◌, ℤ, pos, List, [], ◌∷◌, map, length, set,
  get_or, take, drop, drop-eq-cons, get_or-set_self, get_or-set_ne, length-set, arith,
}
use mathlib.Core.List.{foldl}
use native.Mathlib.Numerals.{add-one}
use indoor_navigation_system.Machine.{Machine}
use indoor_navigation_system.WifiNode.{
  WifiParams, number_samples, init_kalman_params, initial_estimate, initial_error_estimate,
}
use indoor_navigation_system.WifiNode.Kalman.{filter_samples}
use indoor_navigation_system.WifiNode.Kalman.Fold.{
  Estimate, estimate_of, update, IsSampled, filter_samples-IsFiltered,
}
use indoor_navigation_system.DataStore.{AccessPoint}
use indoor_navigation_system.DataStore.Operations.{AccessPointRssiList}
use indoor_navigation_system.Localization.{copy_samples, with_samples}

module _ {F D : Type 0} (m : Machine F D) where
  length-copy_samples :
      (i : ℕ) (series : List ℤ) (samples : List F)
      → length (copy_samples m i series samples) ≡ length samples
  unfolding copy_samples
  length-copy_samples i [] samples = refl
  length-copy_samples i (r ∷ series) samples =
      length-copy_samples (i + 1) series _ ∙ length-set samples (i % number_samples) _

  copy_samples-before :
      (i j : ℕ) (series : List ℤ) (samples : List F) (d : F)
      → j < i
      → i + length series ≤ number_samples
      → get_or (copy_samples m i series samples) j d ≡ get_or samples j d
  unfolding copy_samples
  copy_samples-before i j [] samples d l h = refl
  copy_samples-before i j (r ∷ series) samples d l h =
      copy_samples-before (i + 1) j series _ d (omega arith) (omega arith)
      ∙ get_or-set_ne samples (i % number_samples) j _ d (omega arith)

  -- As long as the series fits the array it is copied as it is.
  pub copy_samples-map :
      (i : ℕ) (series : List ℤ) (samples : List F) (d : F)
      → length samples ≡ number_samples
      → i + length series ≤ number_samples
      → take (length series) (drop i (copy_samples m i series samples)) ≡ map m.int_to_float series
  unfolding copy_samples
  copy_samples-map i [] samples d full h = refl
  copy_samples-map i (r ∷ series) samples d full h =
      let v = m.int_to_float r in
      let written = set samples (i % number_samples) v in
      let copied = copy_samples m (i + 1) series written in
      let long : length written ≡ number_samples =
        length-set samples (i % number_samples) v ∙ full in
      let at : get_or copied i d ≡ v =
        copy_samples-before (i + 1) i series written d (omega arith) (omega arith)
        ∙ ap (λ k. get_or (set samples k v) i d) (omega arith)
        ∙ get_or-set_self samples i v d (omega arith) in
      ap (take (suc (length series)))
        (drop-eq-cons copied i d (omega (arith, length-copy_samples (i + 1) series written)))
      ∙ ap (λ x. x ∷ take (length series) (drop (suc i) copied)) at
      ∙ ap (λ k. v ∷ take (length series) (drop k copied)) (sym (add-one i))
      ∙ ap (λ xs. v ∷ xs) (copy_samples-map (i + 1) series written d long (omega arith))

  -- The estimate that the filter starts from.
  abbrev pub initial : Estimate F
  initial = record {
    power = m.int_to_float initial_estimate;
    error = m.int_to_float initial_error_estimate;
  }

  pub with_samples-IsSampled :
      (w : WifiParams F) (mac_rssi : AccessPointRssiList)
      → length w.rssi_sample_data ≡ number_samples
      → IsSampled (with_samples m w mac_rssi)
  unfolding with_samples init_kalman_params
  with_samples-IsSampled w (access_point, series) full = record {
    full = length-copy_samples 0 series w.rssi_sample_data ∙ full;
    within = omega arith;
  }

  -- The filter on the readings of an access point that fit its array of 4000 elements is the fold of
  -- the update over the readings, in order, from the initial estimate. It takes every reading
  -- exactly once.
  pub filter_samples-readings :
      (w : WifiParams F) (access_point : AccessPoint) (series : List ℤ)
      → length w.rssi_sample_data ≡ number_samples
      → length series ≤ number_samples
      → let filled = with_samples m w (access_point, series) in
        let filtered = filter_samples m filled.no_sample_data filled in
        (estimate_of filtered ≡ foldl (update m) initial (map m.int_to_float series))
        × (filtered.no_processed_sample_data ≡ length series)
  unfolding with_samples init_kalman_params
  filter_samples-readings w access_point series full fits =
      let filled = with_samples m w (access_point, series) in
      let (folded, counted, _) =
        filter_samples-IsFiltered m (length series) filled
          (with_samples-IsSampled w (access_point, series) full) in
      (
        folded
            ∙ ap (foldl (update m) initial) (
                copy_samples-map 0 series w.rssi_sample_data (m.int_to_float (pos 0)) full
                  (omega arith)),
        counted ∙ omega arith,
      )

-- ===== src/WifiNode/Kalman/Fold.antt =====
-- The loop of the filter in server/src/WifiNode.c is a fold of the textbook update over the samples.
use mathlib.Core.List.{foldl}
use indoor_navigation_system.Base.{
  ℕ, zero, suc, ◌+◌, ◌≤◌, ◌<◌, min, ◌≡◌, refl, pos, ltb, [], get_or, take, drop, length, arith,
  subst, sym, foldl-take-suc, ltb→lt, lt→ltb, Bool-cases, inl, inr, drop-eq-nil, take-nil, ◌∙◌,
}
use native.Mathlib.Numerals.{add-one}
use indoor_navigation_system.Machine.{Machine}
use indoor_navigation_system.WifiNode.{
  WifiParams, number_samples, initial_error_measurement, float_zero,
}
use indoor_navigation_system.WifiNode.Kalman.{kalman_process, filter_samples}

-- An estimated power and the error of the estimate.
pub record Estimate (F : Type 0) : Type 0 where
  pub power : F
  pub error : F

abbrev pub estimate_of : {F : Type 0} → WifiParams F → Estimate F
estimate_of w = record {
  power = w.est_received_power;
  error = w.wifi_init_params.initial_error_estimate;
}

-- What the loop counters rely on: the array has its full length and the count stays inside it.
pub record IsSampled {F : Type 0} (w : WifiParams F) : Type 0 where
  pub full : length w.rssi_sample_data ≡ number_samples
  pub within : w.no_processed_sample_data ≤ number_samples

module _ {F D : Type 0} (m : Machine F D) where
  open m use {int_to_float, ◌⊕◌, ◌⊖◌, ◌⊗◌, ◌⊘◌}

  infixl 65 ◌⊕◌ ◌⊖◌
  infixl 70 ◌⊗◌ ◌⊘◌
  -- One update of a scalar Kalman filter with the constant measurement error.
  abbrev pub update : Estimate F → F → Estimate F
  update e sample =
      let gain = e.error ⊘ (e.error ⊕ int_to_float initial_error_measurement) in
      record {
        power = e.power ⊕ (gain ⊗ (sample ⊖ e.power));
        error = (int_to_float (pos 1) ⊖ gain) ⊗ e.error;
      }

  kalman_process-IsSampled : (w : WifiParams F) → IsSampled w → IsSampled (kalman_process m w)
  unfolding kalman_process
  kalman_process-IsSampled w s = ground arith

  -- At the end of the array the filter does nothing.
  kalman_process-full :
      (w : WifiParams F) → number_samples ≤ w.no_processed_sample_data → kalman_process m w ≡ w
  unfolding kalman_process
  kalman_process-full w h = ground arith

  kalman_process_next :
      (w : WifiParams F)
      → w.no_processed_sample_data < number_samples
      → (estimate_of (kalman_process m w)
          ≡ update
              (estimate_of w)
              (get_or w.rssi_sample_data w.no_processed_sample_data (float_zero m)))
        × ((kalman_process m w).no_processed_sample_data ≡ w.no_processed_sample_data + 1)
  unfolding kalman_process
  kalman_process_next w h = rw (lt→ltb _ _ h) (refl, refl)

  kalman_process-samples :
      (w : WifiParams F) → (kalman_process m w).rssi_sample_data ≡ w.rssi_sample_data
  unfolding kalman_process
  kalman_process-samples w = ground arith

  -- What `n` rounds of the loop leave: the estimate is the fold of the update over the next `n`
  -- samples, in order, as far as the array goes, and the count advances by as many.
  abbrev pub IsFiltered : ℕ → WifiParams F → WifiParams F → Type 0
  IsFiltered n w w' =
      (estimate_of w'
        ≡ foldl update (estimate_of w)
            (take n (drop w.no_processed_sample_data w.rssi_sample_data)))
      × (w'.no_processed_sample_data ≡ min (w.no_processed_sample_data + n) number_samples)
      × (w'.rssi_sample_data ≡ w.rssi_sample_data)

  filter_samples-step :
      (n : ℕ) (w : WifiParams F)
      → IsSampled w
      → w.no_processed_sample_data < number_samples
      → IsFiltered n (kalman_process m w) (filter_samples m n (kalman_process m w))
      → IsFiltered (suc n) w (filter_samples m n (kalman_process m w))
  filter_samples-step n w s more (folded, counted, kept) =
      let (power, next) = kalman_process_next w more in
      let same = kalman_process-samples w in
      (
        folded
            ∙ cc (
              foldl-take-suc update (estimate_of w) w.rssi_sample_data w.no_processed_sample_data n
                  (float_zero m) (omega (arith, s.full)),
              add-one w.no_processed_sample_data,
            ),
        omega (arith, next, counted),
        kept ∙ same,
      )

  filter_samples-end :
      (n : ℕ) (w : WifiParams F)
      → IsSampled w
      → number_samples ≤ w.no_processed_sample_data
      → IsFiltered n w (filter_samples m n w)
      → IsFiltered (suc n) w (filter_samples m n w)
  filter_samples-end n w s end (folded, counted, kept) =
      let gone : drop w.no_processed_sample_data w.rssi_sample_data ≡ [] =
        drop-eq-nil w.rssi_sample_data w.no_processed_sample_data (omega (arith, s.full)) in
      (cc (gone, take-nil {A = F} n, take-nil {A = F} (suc n)), omega arith, kept)

  -- On a full sample array with the count within it, any number of filter rounds folds the update over
  -- as many of the remaining samples as there are, counts them, and leaves the samples alone.
  pub filter_samples-IsFiltered :
      (n : ℕ) (w : WifiParams F) → IsSampled w → IsFiltered n w (filter_samples m n w)
  unfolding filter_samples
  filter_samples-IsFiltered zero w s = (refl, omega (arith, s.within), refl)
  filter_samples-IsFiltered (suc n) w s =
      elim (Bool-cases (ltb w.no_processed_sample_data number_samples)) [
        | inl more ↦
            filter_samples-step n w s (ltb→lt _ _ more)
              (filter_samples-IsFiltered n (kalman_process m w) (kalman_process-IsSampled w s))
        | inr full ↦
            let stop : kalman_process m w ≡ w = kalman_process-full w (ground arith) in
            let end : number_samples ≤ w.no_processed_sample_data = ground arith in
            subst (λ v. IsFiltered (suc n) w (filter_samples m n v)) (sym stop)
              (filter_samples-end n w s end (filter_samples-IsFiltered n w s))
      ]

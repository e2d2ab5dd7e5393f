-- ===== src/WifiNode/Positioning/Run.antt =====
-- A node that `InsNodeDefine` set up goes through `GetCartesianPosition` (server/src/WifiNode.c)
-- without a call through a null pointer, and comes out ready for the next readings.
use indoor_navigation_system.Base.{
  ap, All-replicate, All-total, ◌≡◌, refl, List, [], ◌∷◌, map, some, length, All, All-map,
  length-map, length-replicate, ◌∙◌, arith, Text, ℕ, ◌<◌, lt→ltb,
}
use indoor_navigation_system.WifiNode.{
  init_kalman_params, WifiParams, InsNode, Callback, maximum_number_nodes, number_samples,
  destroy_ins_node, ins_node_define, clear_wifi, zero_samples, float_zero, dev_name,
}
use indoor_navigation_system.Machine.{Machine}
use indoor_navigation_system.WifiNode.Kalman.{filter_samples}
use indoor_navigation_system.WifiNode.Kalman.Fold.{IsSampled}
use indoor_navigation_system.WifiNode.PathLoss.{rssi2_power, power2distance}
use indoor_navigation_system.WifiNode.Ordering.{order_rssi_ascend}
use indoor_navigation_system.WifiNode.Ordering.Permutation.{length-order_from}
use indoor_navigation_system.WifiNode.Trilateration.{trilateration_process}
use indoor_navigation_system.WifiNode.Positioning.{filter_access_points, get_cartesian_position}

-- The four function pointers are set.
pub record IsWired {F : Type 0} (n : InsNode F) : Type 0 where
  pub filters : n.filter_process ≡ Callback.kalman_process
  pub shifts : n.rssi2_power_process ≡ Callback.rssi2_power
  pub measures : n.power2distance_process ≡ Callback.power2distance
  pub locates : n.trilateration_process ≡ Callback.trilateration_process

-- What holds of a node between two requests.
pub record IsReady {F : Type 0} (n : InsNode F) : Type 0 where
  pub wired : IsWired n
  pub fifteen : length n.wifi_access_point_node ≡ maximum_number_nodes
  pub sampled : All IsSampled n.wifi_access_point_node

module _ {F D : Type 0} (m : Machine F D) where
  -- The filter on all samples of an access point.
  abbrev pub filtered : WifiParams F → WifiParams F
  filtered w = filter_samples m w.no_sample_data w

  -- The stages, one after the other.
  abbrev pub located : InsNode F → InsNode F
  located n = trilateration_process m (
      power2distance m (
        rssi2_power m
          (record n { wifi_access_point_node = map filtered n.wifi_access_point_node })))

  filter_access_points-map :
      (ws : List (WifiParams F))
      → filter_access_points m Callback.kalman_process ws ≡ some (map filtered ws)
  unfolding filter_access_points
  filter_access_points-map [] = refl
  filter_access_points-map (w ∷ ws) = rw (filter_access_points-map ws)

  -- On a node whose function pointers are set, the positioning is the stages in order, and the reset
  -- of the node behind them.
  pub get_cartesian_position_stages :
      (n : InsNode F)
      → IsWired n
      → get_cartesian_position m n ≡ some (destroy_ins_node m (located n))
  unfolding get_cartesian_position rssi2_power power2distance
  get_cartesian_position_stages n w = rw (
    w.filters,
    filter_access_points-map n.wifi_access_point_node,
    w.shifts,
    w.measures,
    w.locates,
  )

  clear_wifi-IsSampled : (w : WifiParams F) → IsSampled (clear_wifi m w)
  unfolding zero_samples
  clear_wifi-IsSampled w = record {
    full = length-replicate number_samples (float_zero m);
    within = omega arith;
  }

  length-located :
      (n : InsNode F) → length (located n).wifi_access_point_node ≡ length n.wifi_access_point_node
  unfolding trilateration_process order_rssi_ascend rssi2_power power2distance
  length-located n =
      length-order_from m maximum_number_nodes _
      ∙ length-map _ _
      ∙ length-map _ _
      ∙ length-map _ n.wifi_access_point_node

  located-IsWired : (n : InsNode F) → IsWired n → IsWired (located n)
  unfolding trilateration_process order_rssi_ascend rssi2_power power2distance
  located-IsWired n w = record {
    filters = w.filters;
    shifts = w.shifts;
    measures = w.measures;
    locates = w.locates;
  }

  destroy_ins_node-IsReady :
      (n : InsNode F)
      → IsWired n
      → length n.wifi_access_point_node ≡ maximum_number_nodes
      → IsReady (destroy_ins_node m n)
  unfolding destroy_ins_node
  destroy_ins_node-IsReady n w h = record {
    wired = record {
      filters = w.filters;
      shifts = w.shifts;
      measures = w.measures;
      locates = w.locates;
    };
    fifteen = length-map (clear_wifi m) n.wifi_access_point_node ∙ h;
    sampled =
        All-map IsSampled (clear_wifi m) (λ a _. clear_wifi-IsSampled a) n.wifi_access_point_node
          (All-total (λ _. Unit {0}) (λ _. tt) n.wifi_access_point_node);
  }

  pub get_cartesian_position_restores :
      (n : InsNode F)
      → IsWired n
      → length n.wifi_access_point_node ≡ maximum_number_nodes
      → (n' : InsNode F) × (get_cartesian_position m n ≡ some n') × IsReady n'
  get_cartesian_position_restores n w h = (
    destroy_ins_node m (located n),
    get_cartesian_position_stages n w,
    destroy_ins_node-IsReady (located n) (located-IsWired n w) (length-located n ∙ h),
  )

  -- The positioning of a ready node ends in a ready node: no pointer is null and no array is left
  -- at another length.
  pub get_cartesian_position-IsReady :
      (n : InsNode F)
      → IsReady n
      → (n' : InsNode F) × (get_cartesian_position m n ≡ some n') × IsReady n'
  get_cartesian_position-IsReady n r = get_cartesian_position_restores n r.wired r.fifteen

  pub get_cartesian_position_keeps :
      (n : InsNode F) {n' : InsNode F}
      → IsWired n
      → get_cartesian_position m n ≡ some n'
      → (n'.dev_name ≡ n.dev_name) × (n'.device_no ≡ n.device_no)
  unfolding destroy_ins_node trilateration_process order_rssi_ascend rssi2_power power2distance
  get_cartesian_position_keeps n {n'} w e =
      let is : n' ≡ destroy_ins_node m (located n) = cc (e, get_cartesian_position_stages n w) in
      (ap (λ (d : InsNode F). d.dev_name) is, ap (λ (d : InsNode F). d.device_no) is)

  -- A device id that fits its 64 bytes gives a ready node that carries the id and the number.
  pub ins_node_define-IsReady :
      (k : ℕ) (id : Text)
      → length id < dev_name
      → (n : InsNode F) × (ins_node_define m k id ≡ some n)
        × IsReady n
        × (n.dev_name ≡ id)
        × (n.device_no ≡ k)
  unfolding ins_node_define init_kalman_params zero_samples
  ins_node_define-IsReady k id h = rw (lt→ltb _ _ h) (
    _,
    refl,
    record {
      wired = record { filters = refl; shifts = refl; measures = refl; locates = refl };
      fifteen = length-map _ _ ∙ length-replicate maximum_number_nodes _;
      sampled =
          All-map IsSampled _ (λ a s. record { full = s.full; within = omega arith }) _
            (All-replicate IsSampled maximum_number_nodes _
              (record { full = length-replicate number_samples _; within = omega arith }));
    },
    refl,
    refl,
  )

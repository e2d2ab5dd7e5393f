-- ===== src/WifiNode/Positioning.antt =====
-- `computePLProcess` and `GetCartesianPosition` of server/src/WifiNode.c, which run the stages of the
-- positioning through the node's function pointers. The clock readings are only printed.
pub mod Run
use indoor_navigation_system.Base.{List, [], ◌∷◌, Option, none, some, ◌>>=◌, ◌==◌, if◌then◌else◌}
use indoor_navigation_system.Machine.{Machine}
use indoor_navigation_system.WifiNode.{WifiParams, InsNode, Callback, destroy_ins_node}
use indoor_navigation_system.WifiNode.Kalman.{filter_samples}
use indoor_navigation_system.WifiNode.PathLoss.{rssi2_power, power2distance}
use indoor_navigation_system.WifiNode.Trilateration.{trilateration_process}

module _ {F D : Type 0} (m : Machine F D) where
  -- The inner loop, through the pointer `filterProcess`, which is only called if there are samples.
  unfoldable pub filter_access_point : Callback → WifiParams F → Option (WifiParams F)
  filter_access_point Callback.kalman_process w = some (filter_samples m w.no_sample_data w)
  filter_access_point _ w = if w.no_sample_data == 0 then some w else none

  unfoldable pub filter_access_points :
      Callback → List (WifiParams F) → Option (List (WifiParams F))
  unfolding filter_access_point
  filter_access_points cb [] = some []
  filter_access_points cb (w ∷ ws) = do
    w' ← filter_access_point cb w
    ws' ← filter_access_points cb ws
    some (w' ∷ ws')

  -- A call through one of the pointers that take a node.
  unfoldable pub call_process : Callback → InsNode F → Option (InsNode F)
  call_process Callback.rssi2_power n = some (rssi2_power m n)
  call_process Callback.power2distance n = some (power2distance m n)
  call_process Callback.trilateration_process n = some (trilateration_process m n)
  call_process _ n = none

  unfoldable pub compute_pl_process : InsNode F → Option (InsNode F)
  unfolding filter_access_points call_process
  compute_pl_process n = do
    ws ← filter_access_points n.filter_process n.wifi_access_point_node
    let filtered = record n { wifi_access_point_node = ws }
    powered ← call_process filtered.rssi2_power_process filtered
    call_process powered.power2distance_process powered

  -- The node as it is left, whose `nodeCartPosition` the function returns.
  unfoldable pub get_cartesian_position : InsNode F → Option (InsNode F)
  unfolding compute_pl_process call_process
  get_cartesian_position n = do
    measured ← compute_pl_process n
    located ← call_process measured.trilateration_process measured
    some (destroy_ins_node m located)

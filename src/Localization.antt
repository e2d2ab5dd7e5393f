-- ===== src/Localization.antt =====
-- server/src/localization.cpp: from the readings in the database to the position of a device.
pub mod Samples
pub mod Distances
pub mod Stored
pub mod Resolve
pub mod Preserved
pub mod Nearest
use mathlib.Core.Option
use indoor_navigation_system.Base.{
  ℕ, suc, ◌+◌, ◌%◌, ℤ, pos, Text, codes, Option, none, some, ◌>>=◌, List, [], ◌∷◌, length, set,
  get_elem?, ltb, if◌then◌else◌,
}
use indoor_navigation_system.Machine.{Machine}
use indoor_navigation_system.WifiNode.{
  Coordinates, WifiParams, InsNode, number_samples, trilaterat_number_nodes, init_kalman_params,
}
use indoor_navigation_system.WifiNode.Config.{ConfigReader, load_lcfg_params}
use indoor_navigation_system.WifiNode.Registry.{create_ins_node_list_device, find_wifi_node}
use indoor_navigation_system.WifiNode.Positioning.{get_cartesian_position}
use indoor_navigation_system.DataStore.{Position, AccessPoint, Sqlite}
use indoor_navigation_system.DataStore.Operations.{
  AccessPointRssiList, init, close_store, get_distinct_access_points, get_rssi_series_data,
}

module _ {F D : Type 0} (m : Machine F D) where
  -- The loop that copies the readings from place `i` on; past the end of the array it starts over.
  unfoldable pub copy_samples : ℕ → List ℤ → List F → List F
  copy_samples i [] samples = samples
  copy_samples i (rssi ∷ series) samples =
      copy_samples (i + 1) series (set samples (i % number_samples) (m.int_to_float rssi))

  -- The access point before its parameters are loaded.
  unfoldable pub with_samples : WifiParams F → AccessPointRssiList → WifiParams F
  unfolding copy_samples
  with_samples w (access_point, series) =
      let cleared = init_kalman_params m w in
      record cleared {
        mac_address = some (access_point.mac_addr);
        no_sample_data = length series;
        rssi_sample_data = copy_samples 0 series cleared.rssi_sample_data;
      }

  module _ (reader : ConfigReader F) (unwritten : Text) where
    -- `FillNodeDataPoints`. The code of `loadLCFGParams` is not looked at.
    unfoldable pub fill_node_data_points :
        WifiParams F → AccessPointRssiList → Option (WifiParams F)
    unfolding with_samples
    fill_node_data_points w mac_rssi =
        Option.map (λ r. r.1) (load_lcfg_params reader unwritten (with_samples w mac_rssi))

    -- The loop over the access points, on the array of a node. `none` is a write past its end.
    unfoldable pub fill_access_points :
        List (WifiParams F) → List AccessPointRssiList → Option (List (WifiParams F))
    unfolding fill_node_data_points
    fill_access_points ws [] = some ws
    fill_access_points [] (mac_rssi ∷ list) = none
    fill_access_points (w ∷ ws) (mac_rssi ∷ list) = do
      w' ← fill_node_data_points w mac_rssi
      ws' ← fill_access_points ws list
      some (w' ∷ ws')

    -- The node of a device, found or created: the list, and the place of the node in it.
    abbrev pub or_create : List (InsNode F) → Text → Option ℕ → Option (List (InsNode F) × ℕ)
    or_create nodes id (some place) = some (nodes, place)
    or_create nodes id none = do
      (nodes', created) ← create_ins_node_list_device m nodes id
      place ← created
      some (nodes', place)

    -- The log line reads the first element of the list.
    abbrev pub first_of_list : List AccessPointRssiList → Option AccessPointRssiList
    first_of_list [] = none
    first_of_list (mac_rssi ∷ list) = some mac_rssi

    -- `FillNodesDataPoints`: the list with the node filled, the node's place and the node.
    unfoldable pub fill_nodes_data_points :
        List (InsNode F)
        → Text
        → List AccessPointRssiList
        → Option (List (InsNode F) × ℕ × InsNode F)
    unfolding fill_access_points
    fill_nodes_data_points nodes id list = do
      (nodes', place) ← or_create nodes id (find_wifi_node nodes id)
      logged ← first_of_list list
      node ← get_elem? nodes' place
      ws ← fill_access_points node.wifi_access_point_node list
      let filled = record node { wifi_access_point_node = ws }
      some (set nodes' place filled, place, filled)

    -- The position of the node that `GetCartesianPosition` leaves in the list.
    unfoldable pub locate_device :
        List (InsNode F) → Text → List AccessPointRssiList → Option (List (InsNode F) × Position D)
    unfolding fill_nodes_data_points
    locate_device nodes id list = do
      (nodes', place, node) ← fill_nodes_data_points nodes id list
      located ← get_cartesian_position m node
      let posit = located.node_cart_position
      some (
        set nodes' place located,
        record { x = m.widen posit.x; y = m.widen posit.y; z = m.widen posit.z },
      )

    module _ {H B R : Type 0} (sqlite : Sqlite H B R D) where
      -- What `ProcessRSSIDataSet` does between opening and closing its store.
      unfoldable pub position_of :
          Option H
          → B
          → List (InsNode F)
          → Text
          → List AccessPoint
          → Option (List (InsNode F) × Position D)
      unfolding locate_device
      position_of h db nodes id distinct =
          if ltb (length distinct) trilaterat_number_nodes
          then (let nought = m.widen (m.int_to_float (pos 0)) in
              some (nodes, record { x = nought; y = nought; z = nought }))
          else locate_device nodes id (get_rssi_series_data sqlite h db id distinct)

      -- `ProcessRSSIDataSet`, on a store of its own: the database, the nodes and the position.
      unfoldable pub process_rssi_data_set :
          B → List (InsNode F) → Text → Option (B × List (InsNode F) × Position D)
      unfolding position_of
      process_rssi_data_set db nodes id = do
        let (h, opened) = init sqlite db (codes "../ins.db")
        distinct ← get_distinct_access_points sqlite h opened id
        (nodes', position) ← position_of h opened nodes id distinct
        some ((close_store sqlite h opened).1, nodes', position)

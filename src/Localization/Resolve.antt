-- ===== src/Localization/Resolve.antt =====
-- `FillNodesDataPoints` and `ProcessRSSIDataSet` of server/src/localization.cpp: what they do with too
-- many access points, and on a device that is known.
use indoor_navigation_system.Base.{
  All-take, take_fits, take, get_elem?-set_ne, ◌≢◌, length-set, get_elem?-set_self, All, ℕ, ◌<◌,
  ◌≤◌, ◌≡◌, refl, ◌∙◌, Text, none, some, List, [], ◌∷◌, length, set, get_elem?, arith,
}
use indoor_navigation_system.WifiNode.{maximum_number_nodes, WifiParams, InsNode}
use indoor_navigation_system.WifiNode.Positioning.Run.{
  IsReady, IsWired, get_cartesian_position_restores,
}
use indoor_navigation_system.Machine.{Machine}
use indoor_navigation_system.WifiNode.Config.{ConfigReader}
use indoor_navigation_system.WifiNode.Registry.{find_wifi_node}
use indoor_navigation_system.DataStore.{Position}
use indoor_navigation_system.DataStore.Operations.{AccessPointRssiList}
use indoor_navigation_system.Localization.{
  fill_node_data_points, fill_access_points, fill_nodes_data_points, locate_device,
}

module _ {F D : Type 0} (m : Machine F D) where
  -- The answer for a node.
  abbrev pub position_at : InsNode F → Position D
  position_at n = record {
    x = m.widen n.node_cart_position.x;
    y = m.widen n.node_cart_position.y;
    z = m.widen n.node_cart_position.z;
  }

module _ {F D : Type 0} (m : Machine F D) (reader : ConfigReader F) (unwritten : Text) where
  fill_access_points_overflow :
      (ws : List (WifiParams F)) (list : List AccessPointRssiList)
      → length ws < length list
      → fill_access_points m reader unwritten ws list ≡ none
  unfolding fill_access_points
  fill_access_points_overflow [] [] h = ground arith
  fill_access_points_overflow [] (e ∷ list) h = refl
  fill_access_points_overflow (w ∷ ws) [] h = ground arith
  fill_access_points_overflow (w ∷ ws) (e ∷ list) h =
      ground (arith, fill_access_points_overflow ws list)

  -- The parameters of an access point are found and read without an undefined behaviour, whichever
  -- element of the array they go to.
  abbrev pub Loads : AccessPointRssiList → Type 0
  Loads e =
      (w : WifiParams F)
      → (w' : WifiParams F) × (fill_node_data_points m reader unwritten w e ≡ some w')

  fill_access_points_total :
      (ws : List (WifiParams F)) (list : List AccessPointRssiList)
      → length list ≤ length ws
      → All Loads list
      → (ws' : List (WifiParams F)) × (fill_access_points m reader unwritten ws list ≡ some ws')
        × (length ws' ≡ length ws)
  unfolding fill_access_points
  fill_access_points_total ws [] h loads = (ws, refl, refl)
  fill_access_points_total [] (e ∷ list) h loads = ground arith
  fill_access_points_total (w ∷ ws) (e ∷ list) h (load, loads) =
      let (w', filled) = load w in
      let (ws', rest, same) = fill_access_points_total ws list (omega arith) loads in
      (w' ∷ ws', rw (filled, rest), omega arith)

  -- A known and ready device whose access points fit its array and can be loaded is located: the
  -- call succeeds with the position that is left in the device's node, which is ready again at the same
  -- place, and the list keeps its length and all its other nodes.
  pub locate_device-IsReady :
      (nodes : List (InsNode F)) (id : Text) (e : AccessPointRssiList)
      (list : List AccessPointRssiList) (place : ℕ) (node : InsNode F)
      → find_wifi_node nodes id ≡ some place
      → get_elem? nodes place ≡ some node
      → IsReady node
      → length (e ∷ list) ≤ maximum_number_nodes
      → All Loads (e ∷ list)
      → (nodes' : List (InsNode F)) × (located : InsNode F) × (locate_device m reader unwritten
            nodes id
            (e ∷ list)
          ≡ some (nodes', position_at m located))
        × (get_elem? nodes' place ≡ some located)
        × IsReady located
        × (length nodes' ≡ length nodes)
        × ((j : ℕ) → j ≢ place → get_elem? nodes' j ≡ get_elem? nodes j)
  unfolding locate_device fill_nodes_data_points
  locate_device-IsReady nodes id e list place node found at ready fits loads =
      let (ws, filled, same) =
        fill_access_points_total node.wifi_access_point_node (e ∷ list)
          (omega (arith, ready.fifteen)) loads in
      let filled_node = record node { wifi_access_point_node = ws } in
      let wired : IsWired filled_node = record {
        filters = ready.wired.filters;
        shifts = ready.wired.shifts;
        measures = ready.wired.measures;
        locates = ready.wired.locates;
      } in
      let (located, run, again) =
        get_cartesian_position_restores m filled_node wired (same ∙ ready.fifteen) in
      (
        set (set nodes place filled_node) place located,
        located,
        rw (found, at, filled, run) refl,
        get_elem?-set_self (set nodes place filled_node) place located
            (get_elem?-set_self nodes place filled_node at),
        again,
        length-set _ place located ∙ length-set nodes place filled_node,
        λ j h.
            get_elem?-set_ne (set nodes place filled_node) place j located h
            ∙ get_elem?-set_ne nodes place j filled_node h,
      )

  -- A known and ready device whose access points can all be loaded, of which there are more than
  -- fifteen: the first fifteen of them alone are located, and with the others the call ends in an
  -- undefined behaviour, which is the write past the end of the array.
  pub locate_device_overflow :
      (nodes : List (InsNode F)) (id : Text) (list : List AccessPointRssiList) (place : ℕ)
      (node : InsNode F)
      → find_wifi_node nodes id ≡ some place
      → get_elem? nodes place ≡ some node
      → IsReady node
      → maximum_number_nodes < length list
      → All Loads list
      → (nodes' : List (InsNode F)) × (located : InsNode F) × (locate_device m reader unwritten
            nodes id
            (take maximum_number_nodes list)
          ≡ some (nodes', position_at m located))
        × (locate_device m reader unwritten nodes id list ≡ none)
  unfolding locate_device fill_nodes_data_points
  locate_device_overflow nodes id [] place node found at ready h loads = ground arith
  locate_device_overflow nodes id (e ∷ list) place node found at ready h (load, loads) =
      let (nodes', located, run, _, _, _, _) =
        locate_device-IsReady nodes id e (take 14 list) place node found at ready
          (omega (arith, take_fits 14 list)) (load, All-take Loads 14 list loads) in
      (
        nodes',
        located,
        run,
        rw (
          found,
          at,
          fill_access_points_overflow node.wifi_access_point_node (e ∷ list)
              (omega (arith, ready.fifteen)),
        ),
      )

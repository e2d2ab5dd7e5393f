-- ===== src/Localization/Preserved.antt =====
-- What `ProcessRSSIDataSet` of server/src/localization.cpp leaves of the list of nodes, whenever it
-- ends.
pub mod Devices
use indoor_navigation_system.WifiNode.Registry.Names.{
  insert_id-find_wifi_node, create_ins_node_list_device-ids,
}
use indoor_navigation_system.WifiNode.Registry.Lookup.{insert_id, ids}
use indoor_navigation_system.DataStore.Operations.{
  get_distinct_access_points, get_rssi_series_data, init, AccessPointRssiList,
}
use indoor_navigation_system.Base.{
  codes, some_injective, set-set, ℕ, zero, suc, ◌≡◌, refl, ap, ◌∙◌, sym, subst, Text, Option, none,
  some, >>=-eq-some, List, [], ◌∷◌, length, set, get_elem?, All-get_elem?, ltb, arith, Bool-cases,
  Option-cases, inl, inr,
}
use indoor_navigation_system.Localization.{
  trilaterat_number_nodes, first_of_list, create_ins_node_list_device, fill_node_data_points,
  fill_access_points, fill_nodes_data_points, locate_device, position_of, process_rssi_data_set,
  or_create,
}
use indoor_navigation_system.WifiNode.Positioning.Run.{
  get_cartesian_position_keeps, get_cartesian_position_restores, IsReady, IsWired,
}
use indoor_navigation_system.WifiNode.Positioning.{filter_access_points, get_cartesian_position}
use indoor_navigation_system.WifiNode.{Callback, WifiParams, InsNode, zero_node}
use indoor_navigation_system.Machine.{Machine}
use indoor_navigation_system.WifiNode.Config.{ConfigReader}
use indoor_navigation_system.WifiNode.Registry.{find_wifi_node}
use indoor_navigation_system.WifiNode.Registry.Ready.{
  IsNodeList, create_ins_node_list_device-IsNodeList, set-IsNodeList,
}
use indoor_navigation_system.DataStore.{Position, AccessPoint, Sqlite}

module _ {F D : Type 0} (m : Machine F D) (reader : ConfigReader F) (unwritten : Text) where
  length-fill_access_points :
      (ws : List (WifiParams F)) (list : List AccessPointRssiList) {ws' : List (WifiParams F)}
      → fill_access_points m reader unwritten ws list ≡ some ws'
      → length ws' ≡ length ws
  unfolding fill_access_points
  length-fill_access_points ws [] e = ap length (cc (e))
  length-fill_access_points [] (x ∷ list) e = cc
  length-fill_access_points (w ∷ ws) (x ∷ list) {ws'} e =
      let (w', filled, more) = >>=-eq-some (fill_node_data_points m reader unwritten w x) _ e in
      let (rest, filled', same) =
        >>=-eq-some (fill_access_points m reader unwritten ws list) _ more in
      let is : w' ∷ rest ≡ ws' = cc (same) in
      ap length (sym is) ∙ ap suc (length-fill_access_points ws list filled')

  or_create-IsNodeList :
      (nodes : List (InsNode F)) (id : Text) (found : Option ℕ) {nodes' : List (InsNode F)}
      {place : ℕ}
      → or_create m reader unwritten nodes id found ≡ some (nodes', place)
      → IsNodeList m nodes
      → IsNodeList m nodes'
  or_create-IsNodeList nodes id (some p) e l = subst (IsNodeList m) (cc (e)) l
  or_create-IsNodeList nodes id none e l =
      let ((after, created), made, more) =
        >>=-eq-some (create_ins_node_list_device m nodes id) _ e in
      let (place, is, same) = >>=-eq-some created _ more in
      subst (IsNodeList m) (cc (same)) (create_ins_node_list_device-IsNodeList m nodes id made l)

  -- A node without function pointers cannot be located.
  pub get_cartesian_position-null :
      (n : InsNode F) → n.rssi2_power_process ≡ Callback.null → get_cartesian_position m n ≡ none
  unfolding get_cartesian_position
  get_cartesian_position-null n e =
      elim (Option-cases (filter_access_points m n.filter_process n.wifi_access_point_node)) [
        | inl f ↦ rw f refl
        | inr (ws, f) ↦ rw (f, e) refl
      ]

  -- A device behind the root, filled and located.
  located-IsNodeList :
      (nodes : List (InsNode F)) (place : ℕ) (node : InsNode F) (ws : List (WifiParams F))
      {n' : InsNode F}
      → IsNodeList m nodes
      → get_elem? nodes place ≡ some node
      → length ws ≡ length node.wifi_access_point_node
      → get_cartesian_position m (record node { wifi_access_point_node = ws }) ≡ some n'
      → IsNodeList m (set (set nodes place (record node { wifi_access_point_node = ws })) place n')
  located-IsNodeList [] place node ws l at same run = elim l [ ]
  located-IsNodeList (root ∷ nodes) zero node ws (z, _, _) at same run =
      let is : node ≡ zero_node m = cc (at, z) in
      let filled = record node { wifi_access_point_node = ws } in
      let nowhere : get_cartesian_position m filled ≡ none =
        get_cartesian_position-null filled (ap (λ (d : InsNode F). d.rssi2_power_process) is) in
      absurd (ground (arith, nowhere, run))
  located-IsNodeList (root ∷ nodes) (suc i) node ws {n'} (z, reg, rs) at same run =
      let ready : IsReady node = All-get_elem? IsReady nodes i rs at in
      let filled = record node { wifi_access_point_node = ws } in
      let wired : IsWired filled = record {
        filters = ready.wired.filters;
        shifts = ready.wired.shifts;
        measures = ready.wired.measures;
        locates = ready.wired.locates;
      } in
      let (n'', run', again) =
        get_cartesian_position_restores m filled wired (same ∙ ready.fifteen) in
      let (name, number) = get_cartesian_position_keeps m filled wired run in
      subst (IsNodeList m) (sym (set-set (root ∷ nodes) (suc i) filled n')) (
        set-IsNodeList m (root ∷ nodes) i (z, reg, rs) at name number
          (subst IsReady (cc (run, run')) again))

  -- The node of a device is there afterwards, whether it was found or created.
  or_create-ids :
      (nodes : List (InsNode F)) (id : Text) {nodes' : List (InsNode F)} {place : ℕ}
      → or_create m reader unwritten nodes id (find_wifi_node nodes id) ≡ some (nodes', place)
      → IsNodeList m nodes
      → ids nodes' ≡ insert_id id (ids nodes)
  or_create-ids [] id e l = elim l [ ]
  or_create-ids (root ∷ nodes) id e l = elim (Option-cases (find_wifi_node (root ∷ nodes) id)) [
    | inl new ↦
        let ((after, created), made, more) =
          >>=-eq-some (create_ins_node_list_device m (root ∷ nodes) id) _ (rw new at e) in
        let (place, is, same) = >>=-eq-some created _ more in
        let there : after ≡ _ = ap (λ (r : List (InsNode F) × ℕ). r.0) (some_injective same) in
        ap ids (sym there) ∙ create_ins_node_list_device-ids m root nodes id made
    | inr (k, old) ↦
        ap (λ (r : List (InsNode F) × ℕ). ids r.0) (sym (some_injective (rw old at e)))
        ∙ sym (insert_id-find_wifi_node (root ∷ nodes) id old)
  ]

  -- What `FillNodesDataPoints` leaves: one node of a well-formed list, with other access points, and
  -- the device among the ids.
  pub record IsFilled (before : List (InsNode F)) (id : Text) (left : List (InsNode F)) (place : ℕ)
      (node : InsNode F) : Type 0 where
    pub nodes : List (InsNode F)
    pub old : InsNode F
    pub ws : List (WifiParams F)
    pub well : IsNodeList m nodes
    pub named : ids nodes ≡ insert_id id (ids before)
    pub at : get_elem? nodes place ≡ some old
    pub same : length ws ≡ length old.wifi_access_point_node
    pub is : record old { wifi_access_point_node = ws } ≡ node
    pub left_is : set nodes place (record old { wifi_access_point_node = ws }) ≡ left

  pub fill_nodes_data_points-IsFilled :
      (nodes : List (InsNode F)) (id : Text) (list : List AccessPointRssiList)
      {left : List (InsNode F)} {place : ℕ} {node : InsNode F}
      → fill_nodes_data_points m reader unwritten nodes id list ≡ some (left, place, node)
      → IsNodeList m nodes
      → IsFilled nodes id left place node
  unfolding fill_nodes_data_points
  fill_nodes_data_points-IsFilled nodes id list {left} {place} {node} e l =
      let ((made, at_place), create, looked) =
        >>=-eq-some (or_create m reader unwritten nodes id (find_wifi_node nodes id)) _ e in
      let (logged, first, indexed) = >>=-eq-some (first_of_list m reader unwritten list) _ looked in
      let (old, at, fills) = >>=-eq-some (get_elem? made at_place) _ indexed in
      let (ws, filled, same) =
        >>=-eq-some (fill_access_points m reader unwritten old.wifi_access_point_node list) _
          fills in
      let result = some_injective same in
      let here : at_place ≡ place = ap (λ (r : List (InsNode F) × ℕ × InsNode F). r.1) result in
      record {
        nodes = made;
        old = old;
        ws = ws;
        well = or_create-IsNodeList nodes id (find_wifi_node nodes id) create l;
        named = or_create-ids nodes id create l;
        at = ap (get_elem? made) (sym here) ∙ at;
        same = length-fill_access_points old.wifi_access_point_node list filled;
        is = ap (λ (r : List (InsNode F) × ℕ × InsNode F). r.2) result;
        left_is =
            ap (λ k. set made k (record old { wifi_access_point_node = ws })) (sym here)
            ∙ ap (λ (r : List (InsNode F) × ℕ × InsNode F). r.0) result;
      }

  -- Whenever a device is located, on a list of nodes as requests need it, the list is so afterwards.
  pub locate_device-IsNodeList :
      (nodes : List (InsNode F)) (id : Text) (list : List AccessPointRssiList)
      {nodes' : List (InsNode F)} {p : Position D}
      → locate_device m reader unwritten nodes id list ≡ some (nodes', p)
      → IsNodeList m nodes
      → IsNodeList m nodes'
  unfolding locate_device
  locate_device-IsNodeList nodes id list {nodes'} e l =
      let ((left, place, node), fill, locates) =
        >>=-eq-some (fill_nodes_data_points m reader unwritten nodes id list) _ e in
      let f : IsFilled nodes id left place node =
        fill_nodes_data_points-IsFilled nodes id list fill l in
      let (n', run, ends) = >>=-eq-some (get_cartesian_position m node) _ locates in
      subst (IsNodeList m)
        (ap (λ l. set l place n') f.left_is
          ∙ ap (λ (r : List (InsNode F) × Position D). r.0) (some_injective ends))
        (located-IsNodeList f.nodes place f.old f.ws f.well f.at f.same
          (ap (get_cartesian_position m) f.is ∙ run))

  module _ {H B R : Type 0} (sqlite : Sqlite H B R D) where
    position_of-IsNodeList :
        (h : Option H) (db : B) (nodes : List (InsNode F)) (id : Text) (distinct : List AccessPoint)
        {nodes' : List (InsNode F)} {p : Position D}
        → position_of m reader unwritten sqlite h db nodes id distinct ≡ some (nodes', p)
        → IsNodeList m nodes
        → IsNodeList m nodes'
    unfolding position_of
    position_of-IsNodeList h db nodes id distinct {nodes'} e l =
        elim (Bool-cases (ltb (length distinct) trilaterat_number_nodes)) [
          | inl few ↦
              let kept = some_injective (rw few at e) in
              subst (IsNodeList m) (ap (λ (r : List (InsNode F) × Position D). r.0) kept) l
          | inr enough ↦
              locate_device-IsNodeList nodes id (get_rssi_series_data sqlite h db id distinct)
                (rw enough at e) l
        ]

    -- Whenever `ProcessRSSIDataSet` ends, the list of nodes is well formed again.
    pub process_rssi_data_set-IsNodeList :
        (db : B) (nodes : List (InsNode F)) (id : Text) {db' : B} {nodes' : List (InsNode F)}
        {p : Position D}
        → process_rssi_data_set m reader unwritten sqlite db nodes id ≡ some (db', nodes', p)
        → IsNodeList m nodes
        → IsNodeList m nodes'
    unfolding process_rssi_data_set
    process_rssi_data_set-IsNodeList db nodes id e l =
        let (h, opened) = init sqlite db (codes "../ins.db") in
        let (distinct, read, locates) =
          >>=-eq-some (get_distinct_access_points sqlite h opened id) _ e in
        let ((after, position), run, ends) =
          >>=-eq-some (position_of m reader unwritten sqlite h opened nodes id distinct) _
            locates in
        subst (IsNodeList m)
          (ap (λ (r : B × List (InsNode F) × Position D). r.1) (some_injective ends))
          (position_of-IsNodeList h opened nodes id distinct run l)

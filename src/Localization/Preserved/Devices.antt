-- ===== src/Localization/Preserved/Devices.antt =====
-- What locating a device with server/src/localization.cpp leaves of the ids of the nodes.
use indoor_navigation_system.Base.{
  inr, inl, Bool-cases, ltb, if◌then◌else◌, none, ◌∷◌, [], sym, ap, subst, ◌≡◌, ◌∙◌, Text, some,
  >>=-eq-some, some_injective, List, ℕ, zero, suc, length, set, get_elem?, set-set, map-set,
  All-get_elem?, arith,
}
use indoor_navigation_system.DataStore.{Sqlite, Position}
use indoor_navigation_system.Machine.{Machine}
use indoor_navigation_system.WifiNode.{InsNode, WifiParams, zero_node}
use indoor_navigation_system.WifiNode.Config.{ConfigReader}
use indoor_navigation_system.WifiNode.Positioning.{get_cartesian_position}
use indoor_navigation_system.WifiNode.Positioning.Run.{
  get_cartesian_position_keeps, IsReady, IsWired,
}
use indoor_navigation_system.WifiNode.Registry.Lookup.{ids, insert_id}
use indoor_navigation_system.WifiNode.Registry.Ready.{IsNodeList}
use indoor_navigation_system.DataStore.Operations.{AccessPointRssiList}
use indoor_navigation_system.Localization.{fill_nodes_data_points, locate_device}
use indoor_navigation_system.Localization.Stored.{located_by}
use indoor_navigation_system.Localization.Preserved.{
  locate_device-IsNodeList, IsFilled, fill_nodes_data_points-IsFilled, get_cartesian_position-null,
}

module _ {F D : Type 0} (m : Machine F D) (reader : ConfigReader F) (unwritten : Text) where
  -- A node that could be located keeps its name.
  located-name :
      (nodes : List (InsNode F)) (place : ℕ) (node : InsNode F) (ws : List (WifiParams F))
      {n' : InsNode F}
      → IsNodeList m nodes
      → get_elem? nodes place ≡ some node
      → get_cartesian_position m (record node { wifi_access_point_node = ws }) ≡ some n'
      → n'.dev_name ≡ node.dev_name
  located-name [] place node ws l at run = elim l [ ]
  located-name (root ∷ nodes) zero node ws (z, _, _) at run =
      let is : node ≡ zero_node m = cc (at, z) in
      let filled = record node { wifi_access_point_node = ws } in
      let nowhere : get_cartesian_position m filled ≡ none =
        get_cartesian_position-null m reader unwritten filled
          (ap (λ (d : InsNode F). d.rssi2_power_process) is) in
      absurd (ground (arith, nowhere, run))
  located-name (root ∷ nodes) (suc i) node ws (z, reg, rs) at run =
      let ready : IsReady node = All-get_elem? IsReady nodes i rs at in
      let wired : IsWired (record node { wifi_access_point_node = ws }) = record {
        filters = ready.wired.filters;
        shifts = ready.wired.shifts;
        measures = ready.wired.measures;
        locates = ready.wired.locates;
      } in
      (get_cartesian_position_keeps m (record node { wifi_access_point_node = ws }) wired run).0

  -- Whenever a device is located, on a list of nodes as requests need it, its id has been inserted
  -- among the ids of the nodes and nothing else has changed there.
  pub locate_device-ids :
      (nodes : List (InsNode F)) (id : Text) (list : List AccessPointRssiList)
      {nodes' : List (InsNode F)} {p : Position D}
      → locate_device m reader unwritten nodes id list ≡ some (nodes', p)
      → IsNodeList m nodes
      → ids nodes' ≡ insert_id id (ids nodes)
  unfolding locate_device
  locate_device-ids nodes id list {nodes'} e l =
      let ((left, place, node), fill, locates) =
        >>=-eq-some (fill_nodes_data_points m reader unwritten nodes id list) _ e in
      let f : IsFilled m reader unwritten nodes id left place node =
        fill_nodes_data_points-IsFilled m reader unwritten nodes id list fill l in
      let (n', run, ends) = >>=-eq-some (get_cartesian_position m node) _ locates in
      let name : n'.dev_name ≡ f.old.dev_name =
        located-name f.nodes place f.old f.ws f.well f.at
          (ap (get_cartesian_position m) f.is ∙ run) in
      let is : set left place n' ≡ nodes' =
        ap (λ (r : List (InsNode F) × Position D). r.0) (some_injective ends) in
      ap ids (sym is ∙ ap (λ l. set l place n') (sym f.left_is) ∙ set-set f.nodes place _ n')
      ∙ map-set (λ n. n.dev_name) f.nodes place f.at name
      ∙ f.named

  module _ {H B R : Type 0} (sqlite : Sqlite H B R D) where
    -- The same with the check for too few access points in front: these change nothing.
    pub located_by-ids :
        (nodes : List (InsNode F)) (id : Text) (list : List AccessPointRssiList)
        {nodes' : List (InsNode F)} {p : Position D}
        → located_by m reader unwritten sqlite nodes id list ≡ some (nodes', p)
        → IsNodeList m nodes
        → IsNodeList m nodes'
          × (ids nodes' ≡ (if ltb (length list) 3 then ids nodes else insert_id id (ids nodes)))
    located_by-ids nodes id list e l = elim (Bool-cases (ltb (length list) 3)) [
      | inl few ↦
          let kept : nodes ≡ _ =
            ap (λ (r : List (InsNode F) × Position D). r.0) (some_injective (rw few at e)) in
          (subst (IsNodeList m) kept l, rw few (ap ids (sym kept)))
      | inr enough ↦
          let run = rw enough at e in
          (
            locate_device-IsNodeList m reader unwritten nodes id list run l,
            rw enough (locate_device-ids nodes id list run l),
          )
    ]

-- ===== src/Service/Registration.antt =====
-- `SetReceivedSignalStrengths` of server/src/ins_service.cpp from end to end: the statements that it
-- runs and the list of nodes afterwards.
use indoor_navigation_system.Base.{
  sym, inr, inl, Bool-cases, ℕ, ◌<◌, ◌≡◌, refl, ap, ◌∙◌, Text, codes, Option, some, List, [], ◌∷◌,
  length, get_elem?, if◌then◌else◌,
}
use indoor_navigation_system.WifiNode.Registry.Search.{find_wifi_node-create}
use indoor_navigation_system.WifiNode.Registry.Numbers.{
  create_ins_node_list_device-IsRegistry, IsRegistry,
}
use indoor_navigation_system.Service.{
  create_ins_node_list_device, Server, Request, success, failure, all_readings,
  set_received_signal_strengths,
}
use indoor_navigation_system.Machine.{Machine}
use indoor_navigation_system.LocalConfig.{Xml}
use indoor_navigation_system.DataStore.{Sqlite, AccessPointRssi}
use indoor_navigation_system.DataStore.Operations.{create_device_table, insert_rssi_readings}
use indoor_navigation_system.WifiNode.{InsNode, dev_name}
use indoor_navigation_system.WifiNode.Registry.{find_wifi_node}

-- After the call on a list, the list is well formed and the id is found in it.
pub record IsRegistered {F : Type 0} (id : Text) (nodes : List (InsNode F)) : Type 0 where
  pub registry : IsRegistry nodes
  pub place : ℕ
  pub node : InsNode F
  pub is_found : find_wifi_node nodes id ≡ some place
  pub is_there : get_elem? nodes place ≡ some node
  pub has_name : node.dev_name ≡ id

module _ {H B R N F D : Type 0} (m : Machine F D) (sqlite : Sqlite H B R D) (xml : Xml N) where
  create_ins_node_list_device-IsRegistered :
      (before : List (InsNode F)) (id : Text)
      → length id < dev_name
      → IsRegistry before
      → (after : List (InsNode F)) × (p : Option ℕ) × (create_ins_node_list_device m before id
          ≡ some (after, p))
        × IsRegistered id after
  create_ins_node_list_device-IsRegistered [] id short r = elim r [ ]
  create_ins_node_list_device-IsRegistered (root ∷ nodes) id short r =
      let (after, p, made, well) =
        create_ins_node_list_device-IsRegistry m (root ∷ nodes) id short r in
      let (after', p', made', n, k, is_found, at, name) =
        find_wifi_node-create m root nodes id short in
      let same : after' ≡ after = cc (made, made') in
      (
        after,
        p,
        made,
        record {
          registry = well;
          place = k;
          node = n;
          is_found = ap (λ l. find_wifi_node l id) (sym same) ∙ is_found;
          is_there = ap (λ l. get_elem? l k) (sym same) ∙ at;
          has_name = name;
        },
      )

  -- A request with readings, on a well-formed list and with an id that fits 64 bytes: the database has
  -- then run the statement that creates the device's table and, if that succeeded, the one that
  -- inserts the readings in order. If either fails the answer is one error and the list is as
  -- before; else it is one success, and the device is found in a well-formed list.
  pub set_received_signal_strengths-IsRegistered :
      (server : Server H B N F) (request : Request) (id : Text) (readings : List AccessPointRssi)
      → request.param (codes ":device_id") ≡ some id
      → all_readings request ≡ some readings
      → length id < dev_name
      → IsRegistry server.nodes
      → let (created, made) = create_device_table sqlite server.database server.db id in
        let (inserted, stored) = insert_rssi_readings sqlite server.database created id readings in
        (nodes : List (InsNode F)) × (set_received_signal_strengths m sqlite xml server request
          ≡ some (
              if made
              then (if stored
                  then (record server { db = inserted; nodes = nodes }, success ∷ [])
                  else (record server { db = inserted }, failure ∷ []))
              else (record server { db = created }, failure ∷ [])))
        × IsRegistered id nodes
  unfolding set_received_signal_strengths
  set_received_signal_strengths-IsRegistered server request id readings named read short well =
      let (created, made) = create_device_table sqlite server.database server.db id in
      let (inserted, stored) = insert_rssi_readings sqlite server.database created id readings in
      let (after, p, run, registered) =
        create_ins_node_list_device-IsRegistered server.nodes id short well in
      (
        after,
        elim (Bool-cases made) [
          | inl a ↦ elim (Bool-cases stored) [
            | inl b ↦ rw (named, read, a, b, run) refl
            | inr b ↦ rw (named, read, a, b) refl
          ]
          | inr a ↦ rw (named, read, a) refl
        ],
        registered,
      )

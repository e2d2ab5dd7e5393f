-- ===== src/Service/Reachable.antt =====
-- The server of server/src/ins_service.cpp from its start on, request after request: what holds in
-- every state that it reaches.
use indoor_navigation_system.Base.{
  IfSome, IfSome-bind, IfSome-if, ◌≡◌, refl, subst, Text, codes, Option, some, List, [], ◌∷◌,
}
use indoor_navigation_system.Service.{
  failure, insert_rssi_readings, create_device_table, lcfg_reader, process_rssi_data_set, Server,
  Request, Response, init_server, set_received_signal_strengths, resolve_device_position,
  reset_device_position, get_device_position, get_employee_position, handle_ready, auth,
  all_readings, register_device, insert_readings,
}
use indoor_navigation_system.Localization.Preserved.{process_rssi_data_set-IsNodeList}
use indoor_navigation_system.Machine.{Machine}
use indoor_navigation_system.LocalConfig.{Xml}
use indoor_navigation_system.LocalConfig.Initialize.{FileCalls, Config}
use indoor_navigation_system.WifiNode.Registry.Ready.{
  IsNodeList, create_ins_node_list_device-IsNodeList,
}
use indoor_navigation_system.WifiNode.Registry.{create_ins_node_list_device}
use indoor_navigation_system.DataStore.{Position, Sqlite, AccessPointRssi}
use indoor_navigation_system.Service.Routes.{Handler, serve}

module _ {H B R N F D : Type 0} (m : Machine F D) (sqlite : Sqlite H B R D) (xml : Xml N)
    (unwritten : Text) (unset : Position D) where
  -- A state that the server reaches: after `Init`, and after each request whose handler ends.
  pub data Reachable : Server H B N F → Type 0 where
    start :
        (db : B) (calls : FileCalls N) (config : Config N)
        → Reachable (init_server m sqlite xml db calls config)
    after :
        {s s' : Server H B N F} (h : Handler) (request : Request) (sent : List Response)
        → Reachable s
        → serve m sqlite xml unwritten unset h s request ≡ some (s', sent)
        → Reachable s'

  -- A handler that ends leaves a well-formed list of nodes.
  abbrev Leaves : Option (Server H B N F × List Response) → Type 0
  Leaves = IfSome (λ r. IsNodeList m r.0.nodes)

  register_device-Leaves :
      (s : Server H B N F) (id : Text)
      → IsNodeList m s.nodes
      → Leaves (register_device m sqlite xml s id)
  register_device-Leaves s id l =
      IfSome-bind _ (create_ins_node_list_device m s.nodes id) _
        (λ r made. create_ins_node_list_device-IsNodeList m s.nodes id made l)

  insert_readings-Leaves :
      (s : Server H B N F) (id : Text) (readings : List AccessPointRssi)
      → IsNodeList m s.nodes
      → Leaves (insert_readings m sqlite xml s id readings)
  insert_readings-Leaves s id readings l =
      let (db, inserted) = insert_rssi_readings sqlite s.database s.db id readings in
      let after = record s { db = db } in
      IfSome-if _ inserted (register_device m sqlite xml after id) (some (after, failure ∷ []))
        (λ _. register_device-Leaves after id l) (λ _. l)

  set_rssi-Leaves :
      (s : Server H B N F) (request : Request)
      → IsNodeList m s.nodes
      → Leaves (set_received_signal_strengths m sqlite xml s request)
  unfolding set_received_signal_strengths
  set_rssi-Leaves s request l = IfSome-bind _ (request.param (codes ":device_id")) _ (λ id named.
      IfSome-bind _ (all_readings request) _ (λ readings read.
        let (db, created) = create_device_table sqlite s.database s.db id in
        let after = record s { db = db } in
        IfSome-if _ created (insert_readings m sqlite xml after id readings)
          (some (after, failure ∷ [])) (λ _. insert_readings-Leaves after id readings l) (λ _. l)))

  resolve_pos-Leaves :
      (s : Server H B N F) (request : Request)
      → IsNodeList m s.nodes
      → Leaves (resolve_device_position m sqlite xml unwritten s request)
  unfolding resolve_device_position
  resolve_pos-Leaves s request l =
      let reader = lcfg_reader m xml s.config.first_root_child in
      IfSome-bind _ (request.param (codes ":device_id")) _ (λ id named.
        IfSome-bind _ (process_rssi_data_set m reader unwritten sqlite s.db s.nodes id) _ (λ r run.
          process_rssi_data_set-IsNodeList m reader unwritten sqlite s.db s.nodes id run l))

  reset_pos-Leaves :
      (s : Server H B N F) (request : Request)
      → IsNodeList m s.nodes
      → Leaves (reset_device_position m sqlite xml s request)
  unfolding reset_device_position
  reset_pos-Leaves s request l =
      IfSome-bind _ (request.param (codes ":device_id")) _ (λ id named. l)

  get_device_pos-Leaves :
      (s : Server H B N F) (request : Request)
      → IsNodeList m s.nodes
      → Leaves (get_device_position m sqlite xml unset s request)
  unfolding get_device_position
  get_device_pos-Leaves s request l =
      IfSome-bind _ (request.param (codes ":device_id")) _ (λ id named. l)

  get_employee_pos-Leaves :
      (s : Server H B N F) (request : Request)
      → IsNodeList m s.nodes
      → Leaves (get_employee_position m sqlite xml unset s request)
  unfolding get_employee_position
  get_employee_pos-Leaves s request l =
      IfSome-bind _ (request.param (codes ":employee_id")) _ (λ id named. l)

  serve-Leaves :
      (h : Handler) (s : Server H B N F) (request : Request)
      → IsNodeList m s.nodes
      → Leaves (serve m sqlite xml unwritten unset h s request)
  unfolding serve handle_ready auth
  serve-Leaves Handler.set_rssi s request l = set_rssi-Leaves s request l
  serve-Leaves Handler.resolve_pos s request l = resolve_pos-Leaves s request l
  serve-Leaves Handler.reset_pos s request l = reset_pos-Leaves s request l
  serve-Leaves Handler.get_device_pos s request l = get_device_pos-Leaves s request l
  serve-Leaves Handler.get_employee_pos s request l = get_employee_pos-Leaves s request l
  serve-Leaves Handler.ready s request l = l
  serve-Leaves Handler.authorise s request l = l

  -- In every state that the server reaches, by requests that it handles one after the other, the
  -- list of nodes starts with the untouched root; its ids are distinct, its devices numbered in the
  -- order of their arrival, and each of them is ready: its function pointers are set and its arrays
  -- complete.
  pub Reachable-IsNodeList : {s : Server H B N F} → Reachable s → IsNodeList m s.nodes
  unfolding init_server
  Reachable-IsNodeList (Reachable.start db calls config) = (refl, ((refl, tt), tt), tt)
  Reachable-IsNodeList (Reachable.after h request sent r e) =
      subst Leaves e (serve-Leaves h _ request (Reachable-IsNodeList r))

-- ===== src/Service/Site/Serving.antt =====
-- `SetReceivedSignalStrengths`, `ResetDevicePosition` and `GetDevicePosition` of
-- server/src/ins_service.cpp as steps of a site.
use indoor_navigation_system.DataStore.Contents.Employees.{get_position-IsOneOf}
use indoor_navigation_system.Service.{
  get_employee_position, position_response, get_device_position, create_ins_node_list_device,
  Server, Request, Response, all_readings, set_received_signal_strengths, insert_readings,
  register_device, reset_device_position,
}
use indoor_navigation_system.DataStore.Statements.{insert_readings_sql-join}
use indoor_navigation_system.DataStore.{
  create_device_sql, clear_device_sql, Position, Sqlite, AccessPointRssi,
}
use indoor_navigation_system.Service.Site.{insert_id, Site, Step, IsServing, IsClean}
use indoor_navigation_system.DataStore.Contents.Contract.{get_position-answer_for, Contract}
use indoor_navigation_system.DataStore.Operations.{
  create_device_table, insert_rssi_readings, clear_device_table,
}
use indoor_navigation_system.Base.{
  if◌then◌else◌, IfSome, IfSome-bind, IfSome-if, ◌≡◌, ap, ◌∙◌, sym, subst, Text, codes, some, List,
  [], ◌∷◌, Bool-cases, inl, inr,
}
use indoor_navigation_system.WifiNode.Registry.Names.{create_ins_node_list_device-insert_id}
use indoor_navigation_system.Machine.{Machine}
use indoor_navigation_system.LocalConfig.{Xml}
use indoor_navigation_system.LocalConfig.Initialize.{Config}
use indoor_navigation_system.DataStore.Contents.{Contents, add_readings, clear_readings}
use indoor_navigation_system.WifiNode.Registry.Ready.{create_ins_node_list_device-IsNodeList}
use indoor_navigation_system.Service.Routes.{Handler}

module _ {H B R N F D : Type 0} (m : Machine F D) (sqlite : Sqlite H B R D) (xml : Xml N)
    (unwritten : Text) (unset : Position D) (contract : Contract m sqlite) (config : Config N) where
  abbrev pub Serving : Server H B N F → Site D → Type 0
  Serving = IsServing m sqlite xml unwritten unset contract config

  -- A handler that ends has made a step of the site.
  abbrev pub Leads : Request → Site D → Handler → Server H B N F × List Response → Type 0
  Leads request site h (server, sent) =
      (site' : Site D) × Step m sqlite xml unwritten unset contract config request site h site' sent
      × Serving server site'

  register_device-Leads :
      (s : Server H B N F) (site : Site D) (request : Request) (id : Text) (c : Contents D)
      (rs : List AccessPointRssi)
      → request.param (codes ":device_id") ≡ some id
      → all_readings request ≡ some rs
      → Serving s (record site { contents = add_readings id rs site.contents })
      → IfSome (Leads request site Handler.set_rssi) (register_device m sqlite xml s id)
  register_device-Leads s site request id c rs named read v =
      IfSome-bind _ (create_ins_node_list_device m s.nodes id) _ (λ r made. (
        record { names = insert_id id site.names; contents = add_readings id rs site.contents },
        Step.uploaded id rs named read,
        record {
          opened = v.opened;
          represents = v.represents;
          named =
              create_ins_node_list_device-insert_id m s.nodes id made v.well
              ∙ ap (insert_id id) v.named;
          well = create_ins_node_list_device-IsNodeList m s.nodes id made v.well;
          configured = v.configured;
        },
      ))

  -- The server with another database.
  Serving-database :
      (s : Server H B N F) (site : Site D) (db : B) (c : Contents D)
      → Serving s site
      → contract.Represents db c
      → Serving (record s { db = db }) (record site { contents = c })
  Serving-database s site db c v r = record {
    opened = v.opened;
    represents = r;
    named = v.named;
    well = v.well;
    configured = v.configured;
  }

  insert_readings-Leads :
      (s : Server H B N F) (site : Site D) (request : Request) (id : Text)
      (rs : List AccessPointRssi)
      → request.param (codes ":device_id") ≡ some id
      → all_readings request ≡ some rs
      → Serving s site
      → IsClean m sqlite xml unwritten unset contract config request
      → IfSome (Leads request site Handler.set_rssi) (insert_readings m sqlite xml s id rs)
  unfolding insert_rssi_readings
  insert_readings-Leads s site request id rs named read v clean =
      let (db, inserted) = insert_rssi_readings sqlite s.database s.db id rs in
      let stored =
        subst
          (λ sql.
            let (after, ok) = sqlite.exec s.database s.db sql in
            contract.Represents after
              (if ok then add_readings id rs site.contents else site.contents))
          (sym (insert_readings_sql-join id rs))
          (contract.inserts s.database s.db site.contents id rs v.opened (clean.name id named)
            (clean.upload rs read) v.represents) in
      IfSome-if _ inserted _ _
        (λ ok.
          register_device-Leads (record s { db = db }) site request id site.contents rs named read
            (Serving-database s site db (add_readings id rs site.contents) v (rw ok at stored)))
        (λ no. (
          site,
          Step.upload_refused id named,
          Serving-database s site db site.contents v (rw no at stored),
        ))

  pub set_rssi-Leads :
      (s : Server H B N F) (site : Site D) (request : Request)
      → Serving s site
      → IsClean m sqlite xml unwritten unset contract config request
      → IfSome
          (Leads request site Handler.set_rssi)
          (set_received_signal_strengths m sqlite xml s request)
  unfolding set_received_signal_strengths create_device_table create_device_sql
  set_rssi-Leads s site request v clean =
      IfSome-bind _ (request.param (codes ":device_id")) _ (λ id named.
        IfSome-bind _ (all_readings request) _ (λ rs read.
          let (db, created) = create_device_table sqlite s.database s.db id in
          let made = Serving-database s site db site.contents v (
            contract.creates s.database s.db site.contents id v.opened (clean.name id named)
              v.represents) in
          IfSome-if _ created _ _
            (λ _.
              insert_readings-Leads (record s { db = db }) site request id rs named read made clean)
            (λ _. (site, Step.upload_refused id named, made))))

  pub reset_pos-Leads :
      (s : Server H B N F) (site : Site D) (request : Request)
      → Serving s site
      → IsClean m sqlite xml unwritten unset contract config request
      → IfSome (Leads request site Handler.reset_pos) (reset_device_position m sqlite xml s request)
  unfolding reset_device_position clear_device_table clear_device_sql
  reset_pos-Leads s site request v clean =
      IfSome-bind _ (request.param (codes ":device_id")) _ (λ id named.
        let (db, deleted) = clear_device_table sqlite s.database s.db id in
        let left =
          contract.deletes s.database s.db site.contents id v.opened (clean.name id named)
            v.represents in
        elim (Bool-cases deleted) [
          | inl ok ↦ rw ok (
            record site { contents = clear_readings id site.contents },
            Step.cleared id named,
            Serving-database s site db (clear_readings id site.contents) v (rw ok at left),
          )
          | inr failed ↦ rw failed (
            site,
            Step.clear_refused id named,
            Serving-database s site db site.contents v (rw failed at left),
          )
        ])

  pub get_device_pos-Leads :
      (s : Server H B N F) (site : Site D) (request : Request)
      → Serving s site
      → IsClean m sqlite xml unwritten unset contract config request
      → IfSome
          (Leads request site Handler.get_device_pos)
          (get_device_position m sqlite xml unset s request)
  unfolding get_device_position
  get_device_pos-Leads s site request v clean =
      IfSome-bind _ (request.param (codes ":device_id")) _ (λ id named. (
        site,
        subst
            (λ answer.
              Step m sqlite xml unwritten unset contract config request site Handler.get_device_pos
                site (position_response m sqlite xml (codes "device_id") id answer ∷ []))
            (sym (
              get_position-answer_for m sqlite contract s.database s.db site.contents id unset
                v.opened (clean.name id named) v.represents))
            (Step.device_told id named),
        v,
      ))

  pub get_employee_pos-Leads :
      (s : Server H B N F) (site : Site D) (request : Request)
      → Serving s site
      → IsClean m sqlite xml unwritten unset contract config request
      → IfSome
          (Leads request site Handler.get_employee_pos)
          (get_employee_position m sqlite xml unset s request)
  unfolding get_employee_position
  get_employee_pos-Leads s site request v clean =
      IfSome-bind _ (request.param (codes ":employee_id")) _ (λ e named. (
        site,
        Step.employee_told e _ named (
            get_position-IsOneOf m sqlite contract s.database s.db site.contents e unset v.opened
              (clean.employee e named) v.represents),
        v,
      ))

-- ===== src/Service/Site/Ends.antt =====
-- When the handlers of server/src/ins_service.cpp end.
use indoor_navigation_system.Base.{
  inr, arith, inl, ◌⊎◌, ◌>>=◌, ◌≡◌, ◌≢◌, ◌<◌, ◌≤◌, ℕ, zero, suc, refl, ap, ◌∙◌, sym, subst, true,
  false, Bool, Text, codes, Option, some, List, [], ◌∷◌, All, All-get_elem?, length, ltb, get_elem?,
  if◌then◌else◌, some_injective,
}
use indoor_navigation_system.Localization.{locate_device}
use indoor_navigation_system.Localization.Stored.{
  nowhere, located_by, with_database, process_rssi_data_set-Perm,
}
use indoor_navigation_system.Service.{
  process_rssi_data_set, Server, Request, Response, all_readings, set_received_signal_strengths,
  resolve_device_position, reset_device_position, get_device_position, get_employee_position,
  handle_ready, auth,
}
use mathlib.Core.Option
use mathlib.Core.Quot.{sound}
use indoor_navigation_system.Machine.{Machine}
use indoor_navigation_system.LocalConfig.{Xml}
use indoor_navigation_system.LocalConfig.Initialize.{Config}
use indoor_navigation_system.WifiNode.{InsNode, dev_name, maximum_number_nodes}
use indoor_navigation_system.WifiNode.Config.{ConfigReader}
use indoor_navigation_system.WifiNode.Config.Reader.{lcfg_reader}
use indoor_navigation_system.WifiNode.Positioning.Run.{IsReady}
use indoor_navigation_system.WifiNode.Registry.{create_ins_node_list_device, find_wifi_node}
use indoor_navigation_system.WifiNode.Registry.Lookup.{
  ids, contains_id, create_ins_node_list_device-insert,
}
use indoor_navigation_system.WifiNode.Registry.Ready.{IsNodeList}
use indoor_navigation_system.WifiNode.Registry.Search.{found_of_contains, find_wifi_node-IsAnswer}
use indoor_navigation_system.DataStore.{Position, Sqlite, AccessPointRssi}
use indoor_navigation_system.DataStore.Operations.{AccessPointRssiList, init, close_store}
use indoor_navigation_system.DataStore.Contents.Contract.{Contract, init-Represents}
use indoor_navigation_system.Localization.Resolve.{Loads, locate_device-IsReady}
use indoor_navigation_system.Service.Routes.{Handler, serve}
use indoor_navigation_system.Service.Site.{Site, Step, IsServing, IsClean, IsSeries}
use indoor_navigation_system.Service.Site.Refinement.{serve-Step}

-- There is a result.
abbrev Ends : {A : Type 0} → Option A → Type 0
Ends {A} o = (a : A) × (o ≡ some a)

Ends-bind :
    {A B : Type 0} (o : Option A) (f : A → Option B) {a : A}
    → o ≡ some a
    → Ends (f a)
    → Ends (o >>= f)
Ends-bind o f e (b, is) = (b, ap (λ p. p >>= f) e ∙ is)

Ends-if : {A : Type 0} (b : Bool) (x y : Option A) → Ends x → Ends y → Ends (if b then x else y)
Ends-if true x y hx hy = hx
Ends-if false x y hx hy = hy

module _ {F D : Type 0} (m : Machine F D) where
  create_ins_node_list_device-Ends :
      (nodes : List (InsNode F)) (id : Text)
      → length id < dev_name
      → IsNodeList m nodes
      → Ends (create_ins_node_list_device m nodes id)
  create_ins_node_list_device-Ends [] id h l = elim l [ ]
  create_ins_node_list_device-Ends (root ∷ nodes) id h l =
      let (after, made, _, _) = create_ins_node_list_device-insert m root nodes id h in (_, made)

  -- A device behind the root that is found is ready.
  found-IsReady :
      (nodes : List (InsNode F)) (place : ℕ) {node : InsNode F}
      → IsNodeList m nodes
      → get_elem? nodes place ≡ some node
      → node.dev_name ≢ []
      → IsReady node
  found-IsReady [] place l at other = elim l [ ]
  found-IsReady (root ∷ nodes) zero (z, _, _) at other =
      absurd (other (ap (λ (d : InsNode F). d.dev_name) (sym (some_injective at) ∙ z)))
  found-IsReady (root ∷ nodes) (suc i) (_, _, ready) at other =
      All-get_elem? IsReady nodes i ready at

  module _ (reader : ConfigReader F) (unwritten : Text) {H B R : Type 0}
      (sqlite : Sqlite H B R D) where
    located_by-Ends :
        (nodes : List (InsNode F)) (id : Text) (list : List AccessPointRssiList)
        → IsNodeList m nodes
        → id ≢ []
        → contains_id id (ids nodes) ≡ true
        → (length list < 3)
          ⊎ ((length list ≤ maximum_number_nodes) × All (Loads m reader unwritten) list)
        → Ends (located_by m reader unwritten sqlite nodes id list)
    located_by-Ends nodes id list l named there (inl few) =
        let small : ltb (length list) 3 ≡ true = ground arith in
        (
          _,
          ap
              (λ b.
                if b
                then some (nodes, nowhere m reader unwritten sqlite)
                else locate_device m reader unwritten nodes id list)
              small,
        )
    located_by-Ends nodes id [] l named there (inr known) = (_, refl)
    located_by-Ends nodes id (e ∷ list) l named there (inr (fits, loads)) =
        let (node, place, found, at, name) =
          found_of_contains m id nodes (find_wifi_node nodes id) there
            (find_wifi_node-IsAnswer nodes id) in
        let ready = found-IsReady nodes place l at (λ empty. named (sym name ∙ empty)) in
        let (nodes', located, run, _, _, _, _) =
          locate_device-IsReady m reader unwritten nodes id e list place node found at ready fits
            loads in
        Ends-if (ltb (length (e ∷ list)) 3) _ _ (_, refl) (_, run)

module _ {H B R N F D : Type 0} (m : Machine F D) (sqlite : Sqlite H B R D) (xml : Xml N)
    (unwritten : Text) (unset : Position D) (contract : Contract m sqlite) (config : Config N) where
  -- A request that its handler can answer: the parameters are there and convert; an id that
  -- registers fits 64 bytes; a device that is resolved is registered and has readings of fewer than
  -- three access points, or of at most fifteen that load.
  abbrev pub IsAnswerable : Request → Site D → Handler → Type 0
  IsAnswerable request site Handler.set_rssi =
      (id : Text) × (readings : List AccessPointRssi) × (request.param (codes ":device_id")
        ≡ some id)
      × (all_readings request ≡ some readings)
      × (length id < dev_name)
  IsAnswerable request site Handler.resolve_pos =
      (id : Text) × (request.param (codes ":device_id") ≡ some id)
      × (id ≢ [])
      × (contains_id id site.names ≡ true)
      × ((list : List AccessPointRssiList)
          → IsSeries m sqlite xml unwritten unset contract config id site.contents list
          → (length list < 3)
            ⊎ ((length list ≤ maximum_number_nodes)
                × All (Loads m (lcfg_reader m xml config.first_root_child) unwritten) list))
  IsAnswerable request site Handler.reset_pos =
      (id : Text) × (request.param (codes ":device_id") ≡ some id)
  IsAnswerable request site Handler.get_device_pos =
      (id : Text) × (request.param (codes ":device_id") ≡ some id)
  IsAnswerable request site Handler.get_employee_pos =
      (e : Text) × (request.param (codes ":employee_id") ≡ some e)
  IsAnswerable request site Handler.ready = Unit
  IsAnswerable request site Handler.authorise = Unit

  set_rssi-Ends :
      (s : Server H B N F) (site : Site D) (request : Request)
      → IsServing m sqlite xml unwritten unset contract config s site
      → IsAnswerable request site Handler.set_rssi
      → Ends (set_received_signal_strengths m sqlite xml s request)
  unfolding set_received_signal_strengths
  set_rssi-Ends s site request v (id, readings, named, read, short) =
      let (r, made) = create_ins_node_list_device-Ends m s.nodes id short v.well in
      Ends-bind (request.param (codes ":device_id")) _ named (
        Ends-bind (all_readings request) _ read (
          Ends-if _ _ _
            (Ends-if _ _ _ (Ends-bind (create_ins_node_list_device m s.nodes id) _ made (_, refl))
              (_, refl))
            (_, refl)))

  resolve_pos-Ends :
      (s : Server H B N F) (site : Site D) (request : Request)
      → IsServing m sqlite xml unwritten unset contract config s site
      → IsClean m sqlite xml unwritten unset contract config request
      → IsAnswerable request site Handler.resolve_pos
      → Ends (resolve_device_position m sqlite xml unwritten s request)
  unfolding resolve_device_position
  resolve_pos-Ends s site request v clean (id, named, other, there, known) =
      let reader = lcfg_reader m xml s.config.first_root_child in
      let name = clean.name id named in
      let (h, opened) = init sqlite s.db (codes "../ins.db") in
      let (is_open, kept) = init-Represents m sqlite contract s.db site.contents v.represents in
      let (table, is, holds) = contract.lists h opened site.contents id is_open name kept in
      let (list, used, once, heard, run) =
        process_rssi_data_set-Perm m reader unwritten sqlite s.db s.nodes id table holds in
      let (r, located) =
        located_by-Ends m reader unwritten sqlite s.nodes id list v.well other
          (ap (contains_id id) v.named ∙ there)
          (subst
            (λ (c : Config N).
              (length list < 3)
              ⊎ ((length list ≤ maximum_number_nodes)
                  × All (Loads m (lcfg_reader m xml c.first_root_child) unwritten) list))
            (sym v.configured) (known list (sound used ∙ is, once, heard))) in
      Ends-bind (request.param (codes ":device_id")) _ named (
        Ends-bind (process_rssi_data_set m reader unwritten sqlite s.db s.nodes id) _
          (run
            ∙ ap
                (Option.map
                  (with_database m reader unwritten sqlite (close_store sqlite h opened).1))
                located)
          (_, refl))

  serve-Ends :
      (h : Handler) (s : Server H B N F) (site : Site D) (request : Request)
      → IsServing m sqlite xml unwritten unset contract config s site
      → IsClean m sqlite xml unwritten unset contract config request
      → IsAnswerable request site h
      → Ends (serve m sqlite xml unwritten unset h s request)
  unfolding serve reset_device_position get_device_position get_employee_position handle_ready auth
  serve-Ends Handler.set_rssi s site request v clean a = set_rssi-Ends s site request v a
  serve-Ends Handler.resolve_pos s site request v clean a =
      resolve_pos-Ends s site request v clean a
  serve-Ends Handler.reset_pos s site request v clean (id, named) = Ends-bind _ _ named (_, refl)
  serve-Ends Handler.get_device_pos s site request v clean (id, named) =
      Ends-bind _ _ named (_, refl)
  serve-Ends Handler.get_employee_pos s site request v clean (e, named) =
      Ends-bind _ _ named (_, refl)
  serve-Ends Handler.ready s site request v clean a = (_, refl)
  serve-Ends Handler.authorise s site request v clean a = (_, refl)

  -- A server that serves a site, by the contract with SQLite, ends every clean request that its
  -- handler can answer: its parameters are there and convert, an id that registers fits 64 bytes,
  -- and a device that is resolved is registered and has readings of fewer than three access points,
  -- or of at most fifteen that all load. It has then made a step of the site, with the responses
  -- that were sent, and serves the site afterwards.
  pub serve_answers :
      (h : Handler) (server : Server H B N F) (site : Site D) (request : Request)
      → IsServing m sqlite xml unwritten unset contract config server site
      → IsClean m sqlite xml unwritten unset contract config request
      → IsAnswerable request site h
      → (after : Server H B N F) × (sent : List Response) × (site' : Site D) × (serve m sqlite xml
            unwritten unset h server request
          ≡ some (after, sent))
        × Step m sqlite xml unwritten unset contract config request site h site' sent
        × IsServing m sqlite xml unwritten unset contract config after site'
  serve_answers h server site request v clean a =
      let ((after, sent), e) = serve-Ends h server site request v clean a in
      let (site', step, v') =
        serve-Step m sqlite xml unwritten unset contract config h server site request v clean e in
      (after, sent, site', e, step, v')

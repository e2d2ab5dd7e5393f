-- ===== src/Service/Site/Resolve.antt =====
-- `ResolveDevicePosition` of server/src/ins_service.cpp as a step of a site.
use indoor_navigation_system.DataStore.{update_location_sql, Position, Sqlite}
use indoor_navigation_system.Service.Site.Serving.{Leads, Serving}
use indoor_navigation_system.Service.Site.{
  IsLocated, ids, IsSeries, insert_id, Site, Step, IsClean, names_after,
}
use indoor_navigation_system.Service.{
  process_rssi_data_set, Server, Request, success, failure, resolve_device_position,
}
use indoor_navigation_system.DataStore.Contents.Contract.{init-Represents, Contract}
use indoor_navigation_system.DataStore.Operations.{
  AccessPointRssiList, init, update_device_location, close_store,
}
use indoor_navigation_system.Base.{
  some_injective, IfSome, IfSome-bind, ◌≡◌, ap, ◌∙◌, sym, subst, Text, codes, Option, none, some,
  List, [], ◌∷◌, ltb, length, if◌then◌else◌, Bool-cases, inl, inr,
}
use mathlib.Core.Option
use mathlib.Core.Quot.{sound}
use indoor_navigation_system.Machine.{Machine}
use indoor_navigation_system.LocalConfig.{Xml}
use indoor_navigation_system.LocalConfig.Initialize.{Config}
use indoor_navigation_system.WifiNode.{InsNode}
use indoor_navigation_system.WifiNode.Config.Reader.{lcfg_reader}
use indoor_navigation_system.Localization.Preserved.Devices.{located_by-ids}
use indoor_navigation_system.Localization.Stored.{located_by, process_rssi_data_set-Perm}
use indoor_navigation_system.Service.Routes.{Handler}

module _ {H B R N F D : Type 0} (m : Machine F D) (sqlite : Sqlite H B R D) (xml : Xml N)
    (unwritten : Text) (unset : Position D) (contract : Contract m sqlite) (config : Config N) where
  with_database_injective :
      (db : B) (o : Option (List (InsNode F) × Position D)) {db' : B} {nodes : List (InsNode F)}
      {p : Position D}
      → Option.map {B = B × List (InsNode F) × Position D}
          (λ (r : List (InsNode F) × Position D). (db, r.0, r.1))
          o
        ≡ some (db', nodes, p)
      → (db ≡ db') × (o ≡ some (nodes, p))
  with_database_injective db none e = cc
  with_database_injective db (some (nodes', p')) e =
      let is = some_injective e in
      (
        ap (λ (r : B × List (InsNode F) × Position D). r.0) is,
        ap (λ (r : B × List (InsNode F) × Position D). some (r.1, r.2)) is,
      )

  -- The position that was computed goes to the database.
  update-Leads :
      (s : Server H B N F) (site : Site D) (request : Request) (id : Text)
      (list : List AccessPointRssiList) (db : B) (nodes : List (InsNode F)) (p : Position D)
      → request.param (codes ":device_id") ≡ some id
      → IsSeries m sqlite xml unwritten unset contract config id site.contents list
      → contract.IsName id
      → contract.Represents db site.contents
      → Serving m sqlite xml unwritten unset contract config s site
      → located_by m (lcfg_reader m xml s.config.first_root_child) unwritten sqlite s.nodes id list
        ≡ some (nodes, p)
      → let (after, updated) = update_device_location sqlite m s.database db id p in
        Leads m sqlite xml unwritten unset contract config request site Handler.resolve_pos
          (record s { db = after; nodes = nodes }, (if updated then success else failure) ∷ [])
  unfolding update_device_location update_location_sql
  update-Leads s site request id list db nodes p named series name r v run =
      let (after, updated) = update_device_location sqlite m s.database db id p in
      let stored = contract.updates s.database db site.contents id p v.opened name r in
      let (well, is) =
        located_by-ids m (lcfg_reader m xml s.config.first_root_child) unwritten sqlite s.nodes id
          list run v.well in
      let names : ids nodes
          ≡ names_after m sqlite xml unwritten unset contract config site.names id list =
        is ∙ ap (λ ns. if ltb (length list) 3 then ns else insert_id id ns) v.named in
      let located : IsLocated m sqlite xml unwritten unset contract config site.names id list p =
        record {
          nodes = s.nodes;
          after = nodes;
          well = v.well;
          named = v.named;
          located =
              ap
                (λ (c : Config N).
                  located_by m (lcfg_reader m xml c.first_root_child) unwritten sqlite s.nodes id
                    list)
                (sym v.configured)
              ∙ run;
        } in
      elim (Bool-cases updated) [
        | inl ok ↦ rw ok (
          _,
          Step.resolved id list p named series located,
          record {
            opened = v.opened;
            represents = rw ok at stored;
            named = names;
            well = well;
            configured = v.configured;
          },
        )
        | inr failed ↦ rw failed (
          _,
          Step.resolve_refused id list p named series located,
          record {
            opened = v.opened;
            represents = rw failed at stored;
            named = names;
            well = well;
            configured = v.configured;
          },
        )
      ]

  pub resolve_pos-Leads :
      (s : Server H B N F) (site : Site D) (request : Request)
      → Serving m sqlite xml unwritten unset contract config s site
      → IsClean m sqlite xml unwritten unset contract config request
      → IfSome
          (Leads m sqlite xml unwritten unset contract config request site Handler.resolve_pos)
          (resolve_device_position m sqlite xml unwritten s request)
  unfolding resolve_device_position close_store
  resolve_pos-Leads s site request v clean =
      IfSome-bind _ (request.param (codes ":device_id")) _ (λ id named.
        let reader = lcfg_reader m xml s.config.first_root_child in
        let name = clean.name id named in
        let (h, opened) = init sqlite s.db (codes "../ins.db") in
        let (is_open, kept) = init-Represents m sqlite contract s.db site.contents v.represents in
        let (table, is, holds) = contract.lists h opened site.contents id is_open name kept in
        let (list, used, once, heard, run) =
          process_rssi_data_set-Perm m reader unwritten sqlite s.db s.nodes id table holds in
        IfSome-bind _ (process_rssi_data_set m reader unwritten sqlite s.db s.nodes id) _ (λ r e.
          let (closed, located) =
            with_database_injective (close_store sqlite h opened).1
              (located_by m reader unwritten sqlite s.nodes id list) (sym run ∙ e) in
          update-Leads s site request id list r.0 r.1 r.2 named (sound used ∙ is, once, heard) name
            (subst (λ db. contract.Represents db site.contents) closed
              (contract.closes h opened site.contents is_open kept))
            v located))

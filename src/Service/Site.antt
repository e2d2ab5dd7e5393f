-- ===== src/Service/Site.antt =====
-- What server/src/ins_service.cpp promises to its clients: a site with its devices, their readings
-- and their positions, and one step for each way in which a request can end. Which positions are
-- computed is left to the list of nodes.
pub mod Serving
pub mod Resolve
pub mod Refinement
pub mod Ends
pub mod History
use indoor_navigation_system.DataStore.Groups.{IsHeard, all_rows}
use indoor_navigation_system.Base.{
  All, ◌≡◌, true, false, Bool, ltb, Text, codes, Option, none, some, List, [], ◌∷◌, map, length,
  if◌then◌else◌,
}
use indoor_navigation_system.DataStore.Contents.{
  positions_of, Contents, add_readings, clear_readings, place,
}
use indoor_navigation_system.DataStore.Contents.Employees.{IsOneOf}
use indoor_navigation_system.DataStore.Contents.Contract.{answer_for, Contract}
use mathlib.Mathlib.Data.Multiset.Defs.{of_list}
use indoor_navigation_system.Machine.{Machine}
use indoor_navigation_system.LocalConfig.{Xml}
use indoor_navigation_system.LocalConfig.Initialize.{Config}
use indoor_navigation_system.WifiNode.{InsNode}
use indoor_navigation_system.WifiNode.Config.Reader.{lcfg_reader}
use indoor_navigation_system.WifiNode.Registry.Lookup.{ids, insert_id}
use indoor_navigation_system.WifiNode.Registry.Numbers.{Distinct}
use indoor_navigation_system.WifiNode.Registry.Ready.{IsNodeList}
use indoor_navigation_system.DataStore.{Position, Sqlite, AccessPointRssi}
use indoor_navigation_system.DataStore.Operations.{AccessPointRssiList}
use indoor_navigation_system.Localization.Stored.{located_by}
use indoor_navigation_system.Service.{
  Code, Server, Request, Response, success, failure, all_readings, position_response,
}
use indoor_navigation_system.Service.Routes.{Handler}

-- The names of the nodes, the root's empty one first, and what the database holds.
pub record Site (D : Type 0) : Type 0 where
  pub names : List Text
  pub contents : Contents D

module _ {H B R N F D : Type 0} (m : Machine F D) (sqlite : Sqlite H B R D) (xml : Xml N)
    (unwritten : Text) (unset : Position D) (contract : Contract m sqlite) (config : Config N) where
  -- The device is located by some readings, on some nodes that have the names of the site.
  pub record IsLocated (names : List Text) (id : Text) (list : List AccessPointRssiList)
      (p : Position D) : Type 0 where
    pub nodes : List (InsNode F)
    pub after : List (InsNode F)
    pub well : IsNodeList m nodes
    pub named : ids nodes ≡ names
    pub located :
        located_by m (lcfg_reader m xml config.first_root_child) unwritten sqlite nodes id list
        ≡ some (after, p)

  -- The readings by access point: those of the device, each access point once and none without
  -- readings.
  abbrev pub IsSeries : Text → Contents D → List AccessPointRssiList → Type 0
  IsSeries id c list =
      (of_list (all_rows list) ≡ c.readings id)
      × Distinct (map (λ (e : AccessPointRssiList). e.0.mac_addr) list)
      × All IsHeard list

  -- The names after a device was located by some access points.
  abbrev pub names_after : List Text → Text → List AccessPointRssiList → List Text
  names_after names id list = if ltb (length list) 3 then names else insert_id id names

  -- How a request ends: the handler, the site afterwards and the responses.
  pub data Step (request : Request) (site : Site D)
      : Handler → Site D → List Response → Type 0 where
    uploaded :
        (id : Text) (readings : List AccessPointRssi)
        → request.param (codes ":device_id") ≡ some id
        → all_readings request ≡ some readings
        → Step request site Handler.set_rssi
            (record {
              names = insert_id id site.names;
              contents = add_readings id readings site.contents;
            })
            (success ∷ [])
    upload_refused :
        (id : Text)
        → request.param (codes ":device_id") ≡ some id
        → Step request site Handler.set_rssi site (failure ∷ [])
    resolved :
        (id : Text) (list : List AccessPointRssiList) (p : Position D)
        → request.param (codes ":device_id") ≡ some id
        → IsSeries id site.contents list
        → IsLocated site.names id list p
        → Step request site Handler.resolve_pos
            (record {
              names = names_after site.names id list;
              contents = place id (contract.stored p) site.contents;
            })
            (success ∷ [])
    resolve_refused :
        (id : Text) (list : List AccessPointRssiList) (p : Position D)
        → request.param (codes ":device_id") ≡ some id
        → IsSeries id site.contents list
        → IsLocated site.names id list p
        → Step request site Handler.resolve_pos
            (record site { names = names_after site.names id list })
            (failure ∷ [])
    cleared :
        (id : Text)
        → request.param (codes ":device_id") ≡ some id
        → Step request site Handler.reset_pos
            (record site { contents = clear_readings id site.contents })
            (success ∷ [])
    clear_refused :
        (id : Text)
        → request.param (codes ":device_id") ≡ some id
        → Step request site Handler.reset_pos site (failure ∷ success ∷ [])
    device_told :
        (id : Text)
        → request.param (codes ":device_id") ≡ some id
        → Step request site Handler.get_device_pos site (
            position_response m sqlite xml
              (codes "device_id")
              id
              (answer_for unset (site.contents.positions id))
            ∷ [])
    employee_told :
        (e : Text) (answer : Bool × Position D)
        → request.param (codes ":employee_id") ≡ some e
        → IsOneOf unset (positions_of site.contents (site.contents.staff e)) answer
        → Step request site Handler.get_employee_pos site
            (position_response m sqlite xml (codes "employee_id") e answer ∷ [])
    ready_told :
        Step request site Handler.ready site (record { code = Code.ok; body = codes "1" } ∷ [])
    authorised :
        Step request site Handler.authorise site (record { code = Code.ok; body = [] } ∷ [])

  -- A state of the server in which it serves a site.
  pub record IsServing (server : Server H B N F) (site : Site D) : Type 0 where
    pub opened : contract.IsOpen server.database
    pub represents : contract.Represents server.db site.contents
    pub named : ids server.nodes ≡ site.names
    pub well : IsNodeList m server.nodes
    pub configured : server.config ≡ config

  -- The texts of a request can stand in the statements.
  pub record IsClean (request : Request) : Type 0 where
    pub name : (id : Text) → request.param (codes ":device_id") ≡ some id → contract.IsName id
    pub employee :
        (e : Text) → request.param (codes ":employee_id") ≡ some e → contract.IsEmployee e
    pub upload :
        (readings : List AccessPointRssi)
        → all_readings request ≡ some readings
        → contract.IsUpload readings

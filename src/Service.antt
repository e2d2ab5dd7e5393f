-- ===== src/Service.antt =====
-- server/src/ins_service.cpp: the server's state, its routes and its request handlers. Pistache is a
-- parameter: a request is its parameters, and a handler ends with the responses that it sent. `none` is
-- an exception or an undefined behaviour. Cookies, log lines and the endpoint's threads are left out.
pub mod Handlers
pub mod Registration
pub mod Routes
pub mod Reachable
pub mod Upload
pub mod Site
pub mod Main
use mathlib.Core.Option
use indoor_navigation_system.Base.{
  ℕ, zero, suc, ◌+◌, ◌&&◌, Bool, true, false, ℤ, Text, codes, decimal, Option, none, some, ◌>>=◌,
  List, [], ◌∷◌, ◌++◌, if◌then◌else◌,
}
use indoor_navigation_system.Machine.{Machine}
use indoor_navigation_system.LocalConfig.{Xml}
use indoor_navigation_system.LocalConfig.Initialize.{Config, FileCalls, lcfg_initialize}
use indoor_navigation_system.WifiNode.{InsNode, zero_node}
use indoor_navigation_system.WifiNode.Config.Reader.{lcfg_reader}
use indoor_navigation_system.WifiNode.Registry.{create_ins_node_list_device}
use indoor_navigation_system.DataStore.{QueryT, Position, AccessPoint, AccessPointRssi, Sqlite}
use indoor_navigation_system.DataStore.Operations.{
  init, close_store, create_device_table, clear_device_table, insert_rssi_readings,
  update_device_location, get_position,
}
use indoor_navigation_system.Localization.{process_rssi_data_set}

pub data Code : Type 0 where
  ok internal_server_error : Code

pub record Response : Type 0 where
  pub code : Code
  pub body : Text

-- `param` is the value of a request's parameter, if it has it, and `as_int` the conversion of a text
-- to `int32_t`, which can throw.
pub record Request : Type 0 where
  pub param : Text → Option Text
  pub as_int : Text → Option ℤ

-- The store's handle, the database file, the list behind `insNoderoot` and the local configuration.
pub record Server (H B N F : Type 0) : Type 0 where
  pub database : Option H
  pub db : B
  pub nodes : List (InsNode F)
  pub config : Config N

abbrev pub success : Response
success = record { code = ok; body = codes "{result:success}" }

abbrev pub failure : Response
failure = record { code = internal_server_error; body = codes "{result:error}" }

abbrev pub has_param : Request → Text → Bool
has_param request key = elim (request.param key) [ none ↦ false | some _ ↦ true ]

-- One reading of a request, under the keys of number `i`.
unfoldable pub read_reading : Request → ℕ → Option AccessPointRssi
read_reading request i = do
  mac ← request.param (codes ":mac_addr" ++ decimal i)
  text ← request.param (codes ":rssi" ++ decimal i)
  rssi ← request.as_int text
  some (record { mac_addr = mac }, rssi)

-- The loop over the optional readings from number `i` on, with the rounds left.
unfoldable pub read_readings : Request → ℕ → ℕ → Option (List AccessPointRssi)
unfolding read_reading
read_readings request i zero = some []
read_readings request i (suc rounds) =
    if has_param request (codes ":mac_addr" ++ decimal i)
      && has_param request (codes ":rssi" ++ decimal i)
    then (do
      reading ← read_reading request i
      rest ← read_readings request (i + 1) rounds
      some (reading ∷ rest))
    else some []

unfoldable pub all_readings : Request → Option (List AccessPointRssi)
unfolding read_readings
all_readings request = do
  first ← read_reading request 1
  others ← read_readings request 2 9
  some (first ∷ others)

module _ {H B R N F D : Type 0} (m : Machine F D) (sqlite : Sqlite H B R D) (xml : Xml N) where
  -- A handler leaves a server and the responses that it sent, in order.
  abbrev pub Handled : Type 0
  Handled = Option (Server H B N F × List Response)

  -- What follows the statements of `SetReceivedSignalStrengths`.
  abbrev pub register_device : Server H B N F → Text → Handled
  register_device server id = do
    (nodes, created) ← create_ins_node_list_device m server.nodes id
    some (record server { nodes = nodes }, success ∷ [])

  abbrev pub insert_readings : Server H B N F → Text → List AccessPointRssi → Handled
  insert_readings server id readings =
      let (db, inserted) = insert_rssi_readings sqlite server.database server.db id readings in
      let after = record server { db = db } in
      if inserted then register_device after id else some (after, failure ∷ [])

  unfoldable pub set_received_signal_strengths : Server H B N F → Request → Handled
  unfolding all_readings
  set_received_signal_strengths server request = do
    id ← request.param (codes ":device_id")
    readings ← all_readings request
    let (db, created) = create_device_table sqlite server.database server.db id
    let after = record server { db = db }
    if created then insert_readings after id readings else some (after, failure ∷ [])

  -- `unwritten` is what stands in a buffer of `loadLCFGParams` that nothing writes.
  unfoldable pub resolve_device_position : Text → Server H B N F → Request → Handled
  resolve_device_position unwritten server request = do
    id ← request.param (codes ":device_id")
    let reader = lcfg_reader m xml server.config.first_root_child
    (db, nodes, pos) ← process_rssi_data_set m reader unwritten sqlite server.db server.nodes id
    let (db', updated) = update_device_location sqlite m server.database db id pos
    let after = record server { db = db'; nodes = nodes }
    some (after, (if updated then success else failure) ∷ [])

  -- There is no return after the error response.
  unfoldable pub reset_device_position : Server H B N F → Request → Handled
  reset_device_position server request = do
    id ← request.param (codes ":device_id")
    let (db, cleared) = clear_device_table sqlite server.database server.db id
    let sent = if cleared then [] else failure ∷ []
    some (record server { db = db }, sent ++ success ∷ [])

  abbrev pub position_body : Text → Text → Position D → Text
  position_body key id pos =
      codes "{"
      ++ (key
          ++ (codes ":"
              ++ (id
                  ++ (codes ",pos_x:"
                      ++ (m.to_string pos.x
                          ++ (codes ",pos_y:"
                              ++ (m.to_string pos.y
                                  ++ (codes ",pos_z:" ++ (m.to_string pos.z ++ codes "}")))))))))

  -- The response for an answer of `GetPosition`.
  abbrev pub position_response : Text → Text → Bool × Position D → Response
  position_response key id (found, pos) =
      if found then record { code = ok; body = position_body key id pos } else record {
        code = internal_server_error;
        body = codes "{error: " ++ (key ++ codes " not found}");
      }

  -- `unset` is the position before the query, which the code does not initialise.
  unfoldable pub get_device_position : Position D → Server H B N F → Request → Handled
  get_device_position unset server request = do
    id ← request.param (codes ":device_id")
    let answer = get_position sqlite server.database server.db id QueryT.device unset
    some (server, position_response (codes "device_id") id answer ∷ [])

  unfoldable pub get_employee_position : Position D → Server H B N F → Request → Handled
  get_employee_position unset server request = do
    id ← request.param (codes ":employee_id")
    let answer = get_position sqlite server.database server.db id QueryT.employee unset
    some (server, position_response (codes "employee_id") id answer ∷ [])

  unfoldable pub handle_ready : Server H B N F → Request → Handled
  handle_ready server request = some (server, record { code = ok; body = codes "1" } ∷ [])

  unfoldable pub auth : Server H B N F → Request → Handled
  auth server request = some (server, record { code = ok; body = [] } ∷ [])

  -- `Init`: the store, then the local configuration. The node list is the static root alone.
  unfoldable pub init_server : B → FileCalls N → Config N → Server H B N F
  init_server db calls config =
      let (database, db') = init sqlite db (codes "../ins.db") in
      record {
        database = database;
        db = db';
        nodes = zero_node m ∷ [];
        config = (lcfg_initialize xml calls config).1;
      }

  unfoldable pub shutdown : Server H B N F → Server H B N F
  shutdown server =
      let (database, db) = close_store sqlite server.database server.db in
      record server { database = database; db = db }

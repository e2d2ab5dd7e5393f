-- ===== src/Tests/Requests.antt =====
-- Statements of server/src/data_store.cpp and requests of server/src/ins_service.cpp.
use indoor_navigation_system.Service.Registration.{
  set_received_signal_strengths-IsRegistered, IsRegistered,
}
use indoor_navigation_system.WifiNode.Registry.Numbers.{IsRegistry}
use indoor_navigation_system.Tests.{InsNode, wired_node}
use indoor_navigation_system.Base.{
  print_ℤ, decimal, ℕ, ℤ, pos, negsuc, Text, codes, List, [], ◌∷◌, ◌++◌, ◌≡◌, refl, map, arith,
  Option, some, none, true, false, if◌then◌else◌, text_eq, join,
}
use indoor_navigation_system.DataStore.{
  create_device_sql, position_sql, insert_readings_sql, Sqlite, Position, AccessPoint, QueryT,
}
use indoor_navigation_system.WifiNode.Registry.{create_from, create_ins_node_list_device}
use indoor_navigation_system.DataStore.Operations.{insert_rssi_readings, create_device_table}
use indoor_navigation_system.Service.Routes.{Handler, serve}
use indoor_navigation_system.Service.{
  set_received_signal_strengths, Request, Server, success, all_readings,
}
use indoor_navigation_system.DataStore.Statements.{insert_readings_sql-join, row}
use indoor_navigation_system.Machine.Integers.{integers}
use indoor_navigation_system.WifiNode.{zero_node}
use indoor_navigation_system.LocalConfig.{Xml}

-- A database that answers every query with two rows and accepts every statement but those that clear
-- a table. A row is its number.
abbrev pub two_rows : Sqlite ℕ ℕ ℤ ℤ
two_rows = record {
  open_file = λ db file. (some 1, true);
  close = λ h db. db;
  exec = λ h db sql. (db, if text_eq sql (codes "DELETE from dev_7") then false else true);
  select = λ h db sql. (pos 1 ∷ pos 2 ∷ [], true);
  column_double = λ row i. row;
  column_text = λ row i. some (codes "aa");
  column_int = λ row i. row;
}

abbrev pub empty : Xml ℕ
empty = record {
  element_name = λ n. [];
  children = λ n. none;
  next_element_sibling = λ n. none;
  content = λ n. none;
  get_content = λ n. none;
  size = λ n. n;
}

abbrev param_of : Text → Option Text
param_of key =
    if text_eq key (codes ":device_id")
    then some (codes "7")
    else if text_eq key (codes ":mac_addr1")
    then some (codes "aa")
    else if text_eq key (codes ":rssi1")
    then some (codes "-50")
    else none

-- A request of device 7 with one reading.
abbrev pub request : Request
request = record { param = param_of; as_int = λ t. some (negsuc 49) }

abbrev server : Server ℕ ℕ ℕ ℤ
server = record {
  database = some 1;
  db = 0;
  nodes = zero_node integers ∷ wired_node ∷ [];
  config = record { doc = none; first_root_child = none };
}

abbrev pub aa : AccessPoint
aa = record { mac_addr = codes "aa" }

insert_readings_sql-join_example :
    insert_readings_sql (codes "7") ((aa, negsuc 49) ∷ (aa, negsuc 59) ∷ [])
    ≡ codes "INSERT INTO dev_"
      ++ (codes "7"
          ++ (codes " (mac_addr, rssi) VALUES"
              ++ (join (codes ",") (map row ((aa, negsuc 49) ∷ (aa, negsuc 59) ∷ []))
                  ++ codes ";")))
insert_readings_sql-join_example =
    insert_readings_sql-join (codes "7") ((aa, negsuc 49) ∷ (aa, negsuc 59) ∷ [])

abbrev pub origin : Position ℤ
origin = record { x = pos 0; y = pos 0; z = pos 0 }

device_query :
    position_sql (codes "7") QueryT.device
    ≡ some (codes "SELECT pos_x, pos_y, pos_z from locations WHERE device_id=" ++ codes "7")
unfolding position_sql
device_query = refl

pub one_reading : all_readings request ≡ some ((aa, negsuc 49) ∷ [])
unfolding all_readings text_eq decimal
one_reading = refl

registered :
    serve integers two_rows empty [] origin Handler.set_rssi server request
    ≡ some (server, success ∷ [])
unfolding serve set_received_signal_strengths all_readings text_eq decimal create_device_table
    insert_rssi_readings create_ins_node_list_device create_from create_device_sql
    insert_readings_sql join print_ℤ
registered = refl

pub device_seven : param_of (codes ":device_id") ≡ some (codes "7")
unfolding text_eq
device_seven = refl

registered-IsRegistry : IsRegistry server.nodes
unfolding text_eq
registered-IsRegistry = ((refl, (refl, tt)), (refl, tt))

set_received_signal_strengths-IsRegistered_example :
    (nodes : List (InsNode ℤ)) × (set_received_signal_strengths integers two_rows empty server
        request
      ≡ some (record server { nodes = nodes }, success ∷ []))
    × IsRegistered (codes "7") nodes
unfolding create_device_table create_device_sql insert_rssi_readings insert_readings_sql text_eq
set_received_signal_strengths-IsRegistered_example =
    set_received_signal_strengths-IsRegistered integers two_rows empty server request (codes "7")
      ((aa, negsuc 49) ∷ []) device_seven one_reading (omega arith) registered-IsRegistry

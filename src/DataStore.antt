-- ===== src/DataStore.antt =====
-- server/src/data_store.cpp and server/include/types.hpp: the statements that the store sends to
-- SQLite, and what it makes of the answers. SQLite is a parameter; log lines are left out.
pub mod Statements
pub mod Operations
pub mod Groups
pub mod Table
pub mod Contents
use indoor_navigation_system.Base.{
  ℕ, suc, ◌+◌, ◌-◌, Bool, true, false, ℤ, Text, codes, print_ℤ, Option, none, some, ◌>>=◌, List, [],
  ◌∷◌, ◌++◌, length, ltb, if◌then◌else◌,
}
use mathlib.Core.Option
use indoor_navigation_system.Machine.{Machine}

-- The kinds of id to query by. `other` is a value of the enumeration that has no name.
pub data QueryT : Type 0 where
  device employee other : QueryT

pub record Position (D : Type 0) : Type 0 where
  pub x : D
  pub y : D
  pub z : D

-- Access points are told apart by their addresses; the code never gives one a position of its own.
pub record AccessPoint : Type 0 where
  pub mac_addr : Text

-- SQLite, over a type of handles, of database contents and of rows. `select` is the sequence of
-- `sqlite3_step` on a prepared statement: the rows, and whether it ended with `SQLITE_DONE`. A text
-- column may be null.
pub record Sqlite (H B R D : Type 0) : Type 0 where
  pub open_file : B → Text → Option H × Bool
  pub close : Option H → B → B
  pub exec : Option H → B → Text → B × Bool
  pub select : Option H → B → Text → List R × Bool
  pub column_double : R → ℕ → D
  pub column_text : R → ℕ → Option Text
  pub column_int : R → ℕ → ℤ

-- `CREATE TABLE` of the locations, of the access points and of a device.
abbrev pub create_location_sql : Text
create_location_sql =
    codes "CREATE TABLE IF NOT EXISTS locations(device_id INTEGER PRIMARY KEY,"
    ++ (codes "employee_id TEXT,"
        ++ (codes "pos_x REAL,"
            ++ (codes "pos_y REAL,"
                ++ (codes "pos_z REAL,"
                    ++ codes "timestamp datatime default current_timestamp);"))))

abbrev pub create_access_point_sql : Text
create_access_point_sql =
    codes "CREATE TABLE IF NOT EXISTS access_points("
    ++ (codes "mac_addr TEXT PRIMARY KEY,"
        ++ (codes "pos_x REAL," ++ (codes "pos_y REAL," ++ codes "pos_z REAL);")))

unfoldable pub create_device_sql : Text → Text
create_device_sql id =
    codes "CREATE TABLE IF NOT EXISTS dev_"
    ++ (id
        ++ (codes "(id INTEGER PRIMARY KEY,"
            ++ (codes "mac_addr TEXT, rssi REAL,"
                ++ codes "timestamp datatime default current_timestamp);")))

unfoldable pub clear_device_sql : Text → Text
clear_device_sql id = codes "DELETE from dev_" ++ id

unfoldable pub assign_device_sql : Text → Text → Text
assign_device_sql id employee_id =
    codes "INSERT OR REPLACE INTO locations (device_id, employee_id, pos_x, pos_y, pos_z) VALUES ("
    ++ (id
        ++ (codes ",'"
            ++ (employee_id
                ++ (codes "',(SELECT pos_x FROM locations WHERE device_id="
                    ++ (id
                        ++ (codes "),(SELECT pos_y FROM locations WHERE device_id="
                            ++ (id
                                ++ (codes "),(SELECT pos_z FROM locations WHERE device_id="
                                    ++ (id ++ codes "));")))))))))

-- The readings of one request: an address and a signal strength each.
abbrev pub AccessPointRssi : Type 0
AccessPointRssi = AccessPoint × ℤ

-- The loop of `InsertRSSIReadings` from place `i` on; `size` is the length of the whole list.
unfoldable pub readings_from : ℕ → ℕ → List AccessPointRssi → Text
readings_from size i [] = []
readings_from size i ((access_point, rssi) ∷ readings) =
    codes "('"
    ++ (access_point.mac_addr
        ++ (codes "',"
            ++ (print_ℤ rssi
                ++ (codes ")"
                    ++ ((if ltb i (size - 1) then codes "," else [])
                        ++ readings_from size (i + 1) readings)))))

unfoldable pub insert_readings_sql : Text → List AccessPointRssi → Text
unfolding readings_from
insert_readings_sql id readings =
    codes "INSERT INTO "
    ++ (codes "dev_"
        ++ (id
            ++ (codes " ("
                ++ (codes "mac_addr, rssi) "
                    ++ (codes "VALUES"
                        ++ (readings_from (length readings) 0 readings ++ codes ";"))))))

-- The query for a position, if the kind of id is a known one.
unfoldable pub position_sql : Text → QueryT → Option Text
position_sql id QueryT.device =
    some (codes "SELECT pos_x, pos_y, pos_z from locations WHERE device_id=" ++ id)
position_sql id QueryT.employee =
    some
      (codes "SELECT pos_x, pos_y, pos_z from locations WHERE employee_id='" ++ (id ++ codes "'"))
position_sql id QueryT.other = none

unfoldable pub distinct_sql : Text → Text
distinct_sql id = codes "SELECT DISTINCT mac_addr FROM dev_" ++ (id ++ codes ";")

unfoldable pub series_sql : Text → AccessPoint → Text
series_sql id access_point =
    codes "SELECT rssi FROM dev_"
    ++ (id ++ (codes " where mac_addr ='" ++ (access_point.mac_addr ++ codes "';")))

unfoldable pub update_location_sql : {F D : Type 0} → Machine F D → Text → Position D → Text
update_location_sql m id pos =
    codes "INSERT OR REPLACE INTO locations (device_id, pos_x, pos_y, "
    ++ (codes "pos_z, employee_id) VALUES ("
        ++ (id
            ++ (codes ","
                ++ (m.to_string pos.x
                    ++ (codes ", "
                        ++ (m.to_string pos.y
                            ++ (codes ", "
                                ++ (m.to_string pos.z
                                    ++ (codes
                                          ", (SELECT employee_id FROM locations WHERE device_id="
                                        ++ (id ++ codes "));"))))))))))

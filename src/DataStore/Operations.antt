-- ===== src/DataStore/Operations.antt =====
-- The methods of `DataStore` in server/src/data_store.cpp, over the contents of the database and the
-- handle `database_`, which is null before `Init` and after `Close`.
pub mod Answers
use indoor_navigation_system.Base.{
  ℕ, Bool, true, false, ℤ, Text, codes, Option, none, some, ◌>>=◌, List, [], ◌∷◌, ◌++◌, map,
  if◌then◌else◌,
}
use indoor_navigation_system.Machine.{Machine}
use indoor_navigation_system.DataStore.{
  QueryT, Position, AccessPoint, AccessPointRssi, Sqlite, create_location_sql,
  create_access_point_sql, create_device_sql, clear_device_sql, assign_device_sql,
  insert_readings_sql, position_sql, distinct_sql, series_sql, update_location_sql,
}

-- An access point with its series of signal strengths.
abbrev pub AccessPointRssiList : Type 0
AccessPointRssiList = AccessPoint × List ℤ

module _ {H B R D : Type 0} (sqlite : Sqlite H B R D) where
  open sqlite use {open_file, close, exec, select, column_double, column_text, column_int}

  -- `RunQuery`: whether SQLite answered `SQLITE_OK`. The rows only go to the log.
  abbrev pub run_query : Option H → B → Text → B × Bool
  run_query = exec

  unfoldable pub create_location_table : Option H → B → B × Bool
  create_location_table h db = run_query h db create_location_sql

  unfoldable pub create_access_point_table : Option H → B → B × Bool
  create_access_point_table h db = run_query h db create_access_point_sql

  unfoldable pub create_device_table : Option H → B → Text → B × Bool
  create_device_table h db id = run_query h db (create_device_sql id)

  unfoldable pub clear_device_table : Option H → B → Text → B × Bool
  clear_device_table h db id = run_query h db (clear_device_sql id)

  unfoldable pub assign_device_to_employee : Option H → B → Text → Text → B × Bool
  assign_device_to_employee h db id employee_id = run_query h db (assign_device_sql id employee_id)

  unfoldable pub insert_rssi_readings : Option H → B → Text → List AccessPointRssi → B × Bool
  insert_rssi_readings h db id readings = run_query h db (insert_readings_sql id readings)

  unfoldable pub update_device_location :
      {F : Type 0} → Machine F D → Option H → B → Text → Position D → B × Bool
  update_device_location m h db id pos = run_query h db (update_location_sql m id pos)

  -- `Init`: the handle and the database. A file that does not open leaves what `sqlite3_open` gave.
  unfoldable pub init : B → Text → Option H × B
  unfolding create_location_table
  init db file =
      let (h, opened) = open_file db file in
      (h, if opened then (create_location_table h db).0 else db)

  -- `Close`: the handle is null afterwards.
  unfoldable pub close_store : Option H → B → Option H × B
  close_store h db = (none, close h db)

  -- The loop over the rows of `GetPosition`: each row overwrites the position.
  unfoldable pub read_positions : List R → Bool → Position D → Bool × Position D
  read_positions [] result pos = (result, pos)
  read_positions (row ∷ rows) result pos =
      read_positions rows true
        (record { x = column_double row 0; y = column_double row 1; z = column_double row 2 })

  -- The steps of the prepared query: an error makes the result false.
  abbrev pub finish_position : List R × Bool → Position D → Bool × Position D
  finish_position (rows, finished) pos =
      let (result, pos') = read_positions rows false pos in
      (if finished then result else false, pos')

  abbrev pub query_position : Option H → B → Option Text → Position D → Bool × Position D
  query_position h db none pos = (false, pos)
  query_position h db (some sql) pos = finish_position (select h db sql) pos

  -- `GetPosition`: the result, and the position that the reference argument holds afterwards.
  unfoldable pub get_position : Option H → B → Text → QueryT → Position D → Bool × Position D
  unfolding read_positions position_sql
  get_position h db id query_by pos = query_position h db (position_sql id query_by) pos

  -- The loop of `GetDistinctAccessPoints`. A null address is undefined, and an error ends the loop as
  -- the last row does.
  unfoldable pub read_access_points : List R → Option (List AccessPoint)
  read_access_points [] = some []
  read_access_points (row ∷ rows) = do
    mac ← column_text row 0
    rest ← read_access_points rows
    some (record { mac_addr = mac } ∷ rest)

  unfoldable pub get_distinct_access_points : Option H → B → Text → Option (List AccessPoint)
  unfolding read_access_points
  get_distinct_access_points h db id = read_access_points (select h db (distinct_sql id)).0

  unfoldable pub get_rssi_series_from_database : Option H → B → Text → AccessPoint → List ℤ
  get_rssi_series_from_database h db id access_point =
      map (λ row. column_int row 0) (select h db (series_sql id access_point)).0

  unfoldable pub get_rssi_series_data :
      Option H → B → Text → List AccessPoint → List AccessPointRssiList
  unfolding get_rssi_series_from_database
  get_rssi_series_data h db id [] = []
  get_rssi_series_data h db id (access_point ∷ access_points) =
      (access_point, get_rssi_series_from_database h db id access_point)
      ∷ get_rssi_series_data h db id access_points

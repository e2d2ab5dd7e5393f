-- ===== src/DataStore/Contents/Contract.antt =====
-- What server/src/data_store.cpp relies on of SQLite: what its statements do to the contents of the
-- tables, whenever SQLite says that they succeeded, and what its queries then answer. A statement
-- that fails is rolled back.
use indoor_navigation_system.DataStore.Contents.{
  positions_of, Contents, add_readings, clear_readings, place,
}
use mathlib.Core.List.{Perm}
use indoor_navigation_system.DataStore.Statements.{row}
use indoor_navigation_system.Base.{
  join, ◌++◌, ap, false, Bool, ◌≡◌, refl, ◌∙◌, true, Text, codes, Option, none, some, List, [], ◌∷◌,
  map, if◌then◌else◌,
}
use indoor_navigation_system.DataStore.Operations.{
  finish_position, create_location_table, init, read_positions, get_position,
}
use mathlib.Mathlib.Data.Multiset.Defs.{of_list}
use indoor_navigation_system.Machine.{Machine}
use indoor_navigation_system.DataStore.{QueryT, Position, AccessPointRssi, Sqlite, position_sql}
use indoor_navigation_system.DataStore.Operations.Answers.{row_position}
use indoor_navigation_system.DataStore.Table.{Holds}

-- The statements, as SQLite gets them.
abbrev pub locations_text : Text
locations_text =
    codes
      "CREATE TABLE IF NOT EXISTS locations(device_id INTEGER PRIMARY KEY,employee_id TEXT,pos_x REAL,"
    ++ codes "pos_y REAL,pos_z REAL,timestamp datatime default current_timestamp);"

abbrev pub table_text : Text → Text
table_text id =
    codes "CREATE TABLE IF NOT EXISTS dev_"
    ++ (id
        ++ codes
            "(id INTEGER PRIMARY KEY,mac_addr TEXT, rssi REAL,timestamp datatime default current_timestamp);")

abbrev pub insert_text : Text → List AccessPointRssi → Text
insert_text id readings =
    codes "INSERT INTO dev_"
    ++ (id
        ++ (codes " (mac_addr, rssi) VALUES" ++ (join (codes ",") (map row readings) ++ codes ";")))

abbrev pub delete_text : Text → Text
delete_text id = codes "DELETE from dev_" ++ id

abbrev pub location_text : {F D : Type 0} → Machine F D → Text → Position D → Text
location_text m id pos =
    codes "INSERT OR REPLACE INTO locations (device_id, pos_x, pos_y, pos_z, employee_id) VALUES ("
    ++ (id
        ++ (codes ","
            ++ (m.to_string pos.x
                ++ (codes ", "
                    ++ (m.to_string pos.y
                        ++ (codes ", "
                            ++ (m.to_string pos.z
                                ++ (codes ", (SELECT employee_id FROM locations WHERE device_id="
                                    ++ (id ++ codes "));")))))))))

abbrev pub position_text : Text → Text
position_text id = codes "SELECT pos_x, pos_y, pos_z from locations WHERE device_id=" ++ id

abbrev pub employee_text : Text → Text
employee_text e =
    codes "SELECT pos_x, pos_y, pos_z from locations WHERE employee_id='" ++ (e ++ codes "'")

-- The rows of a query for one position.
abbrev pub rows_for : {D : Type 0} → Option (Position D) → List (Position D)
rows_for none = []
rows_for (some p) = p ∷ []

-- `IsName` and `IsEmployee` are the texts that the statements can take as the number of a device and
-- quote as that of an employee, `IsUpload` the readings whose texts they can quote. `stored` is what
-- a position becomes when it is printed and read again. The file can be opened, and the queries end
-- without an error. `finds` holds since `device_id` is the primary key of the locations; the rows
-- for an employee come in no order that one can rely on.
pub record Contract {F H B R D : Type 0} (m : Machine F D) (sqlite : Sqlite H B R D) : Type 1 where
  pub IsOpen : Option H → Type 0
  pub IsName : Text → Type 0
  pub IsEmployee : Text → Type 0
  pub IsUpload : List AccessPointRssi → Type 0
  pub Represents : B → Contents D → Type 0
  pub stored : Position D → Position D
  pub opens :
      (db : B)
      → let (h, opened) = sqlite.open_file db (codes "../ins.db") in IsOpen h × (opened ≡ true)
  pub closes :
      (h : Option H) (db : B) (c : Contents D)
      → IsOpen h
      → Represents db c
      → Represents (sqlite.close h db) c
  pub creates_locations :
      (h : Option H) (db : B) (c : Contents D)
      → IsOpen h
      → Represents db c
      → Represents (sqlite.exec h db locations_text).0 c
  pub creates :
      (h : Option H) (db : B) (c : Contents D) (id : Text)
      → IsOpen h
      → IsName id
      → Represents db c
      → Represents (sqlite.exec h db (table_text id)).0 c
  pub inserts :
      (h : Option H) (db : B) (c : Contents D) (id : Text) (readings : List AccessPointRssi)
      → IsOpen h
      → IsName id
      → IsUpload readings
      → Represents db c
      → let (after, ok) = sqlite.exec h db (insert_text id readings) in
        Represents after (if ok then add_readings id readings c else c)
  pub deletes :
      (h : Option H) (db : B) (c : Contents D) (id : Text)
      → IsOpen h
      → IsName id
      → Represents db c
      → let (after, ok) = sqlite.exec h db (delete_text id) in
        Represents after (if ok then clear_readings id c else c)
  pub updates :
      (h : Option H) (db : B) (c : Contents D) (id : Text) (pos : Position D)
      → IsOpen h
      → IsName id
      → Represents db c
      → let (after, ok) = sqlite.exec h db (location_text m id pos) in
        Represents after (if ok then place id (stored pos) c else c)
  pub finds :
      (h : Option H) (db : B) (c : Contents D) (id : Text)
      → IsOpen h
      → IsName id
      → Represents db c
      → let (rows, finished) = sqlite.select h db (position_text id) in
        (map (row_position sqlite) rows ≡ rows_for (c.positions id)) × (finished ≡ true)
  pub finds_employee :
      (h : Option H) (db : B) (c : Contents D) (e : Text)
      → IsOpen h
      → IsEmployee e
      → Represents db c
      → let (rows, finished) = sqlite.select h db (employee_text e) in
        Perm (map (row_position sqlite) rows) (positions_of c (c.staff e)) × (finished ≡ true)
  pub lists :
      (h : Option H) (db : B) (c : Contents D) (id : Text)
      → IsOpen h
      → IsName id
      → Represents db c
      → (table : List AccessPointRssi) × (of_list table ≡ c.readings id)
        × Holds sqlite h db id table

-- What `GetPosition` answers for a device that has a position or none.
abbrev pub answer_for : {D : Type 0} → Position D → Option (Position D) → Bool × Position D
answer_for unset none = (false, unset)
answer_for unset (some p) = (true, p)

module _ {H B R D : Type 0} (sqlite : Sqlite H B R D) where
  finish_position-answer_for :
      (rows : List R) (pos : Position D) (o : Option (Position D))
      → map (row_position sqlite) rows ≡ rows_for o
      → finish_position sqlite (rows, true) pos ≡ answer_for pos o
  unfolding read_positions
  finish_position-answer_for [] pos none e = refl
  finish_position-answer_for [] pos (some p) e = cc
  finish_position-answer_for (row ∷ rows) pos none e = cc
  finish_position-answer_for (row ∷ []) pos (some p) e =
      let is : row_position sqlite row ≡ p = cc in ap (λ q. (true, q)) is
  finish_position-answer_for (row ∷ r ∷ rows) pos (some p) e = cc

module _ {F H B R D : Type 0} (m : Machine F D) (sqlite : Sqlite H B R D)
    (contract : Contract m sqlite) where
  -- By the contract, `GetPosition` finds the position of a device exactly if it has one.
  pub get_position-answer_for :
      (h : Option H) (db : B) (c : Contents D) (id : Text) (unset : Position D)
      → contract.IsOpen h
      → contract.IsName id
      → contract.Represents db c
      → get_position sqlite h db id QueryT.device unset ≡ answer_for unset (c.positions id)
  unfolding get_position position_sql
  get_position-answer_for h db c id unset opened name r =
      let (found, finished) = contract.finds h db c id opened name r in
      let (rows, _) =
        sqlite.select h db
          (codes "SELECT pos_x, pos_y, pos_z from locations WHERE device_id=" ++ id) in
      ap (λ b. finish_position sqlite (rows, b) unset) finished
      ∙ finish_position-answer_for sqlite rows unset (c.positions id) found

  -- By the contract, a store that is opened keeps the contents.
  pub init-Represents :
      (db : B) (c : Contents D)
      → contract.Represents db c
      → let (h, db') = init sqlite db (codes "../ins.db") in
        contract.IsOpen h × contract.Represents db' c
  unfolding init create_location_table
  init-Represents db c r =
      let (opened, is) = contract.opens db in
      (opened, rw is (contract.creates_locations _ db c opened r))

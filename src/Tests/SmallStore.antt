-- ===== src/Tests/SmallStore.antt =====
-- A database of server/src/data_store.cpp for device 7 that meets the contract: it keeps the rows of
-- one table and one position, and takes one list of readings.
use indoor_navigation_system.Base.{
  All-implies, Bool-cases, All, ◌≢◌, join, decimal, print_ℤ, ℕ, ℤ, pos, negsuc, value, starts_with,
  Text, codes, text_eq, text_eq_refl, Option, none, some, List, [], ◌∷◌, ◌++◌, ◌≡◌, refl, ap, sym,
  subst, ◌∙◌, ◌⊎◌, inl, inr, map, drop, length, get_or, Bool, true, false, if◌then◌else◌, arith,
  ◌==◌,
}
use indoor_navigation_system.DataStore.Contents.{
  with_position, positions_of, add_readings, Contents,
}
use indoor_navigation_system.DataStore.Contents.Contract.{
  employee_text, insert_text, location_text, delete_text, position_text, Contract, rows_for,
}
use indoor_navigation_system.DataStore.Groups.{strengths, IsCovered}
use indoor_navigation_system.DataStore.Table.{series_text, distinct_text, Holds}
use indoor_navigation_system.DataStore.{Sqlite, Position, AccessPointRssi}
use mathlib.Core.List.{Perm}
use indoor_navigation_system.DataStore.Operations.Answers.{row_position}
use mathlib.Mathlib.Data.Multiset.Defs.{of_list}
use mathlib.Mathlib.Data.Multiset.AddSub.{add}
use mathlib.Core.List.Perm
use indoor_navigation_system.Machine.Integers.{integers}
use indoor_navigation_system.WifiNode.Registry.Lookup.{insert_id, contains_id}
use indoor_navigation_system.WifiNode.Registry.Numbers.{Distinct, insert_id-Distinct}
use indoor_navigation_system.Tests.Stored.{cut, cut-append}
use indoor_navigation_system.Tests.Requests.{aa}

-- The rows of the device's table, and its row among the locations.
pub record Rows : Type 0 where
  pub table : List AccessPointRssi
  pub placed : Option (Position ℤ)

abbrev pub seven : Text
seven = codes "7"

-- Its employee.
abbrev pub nine : Text
nine = codes "9"

abbrev pub upload : List AccessPointRssi
upload = (aa, negsuc 49) ∷ []

-- A cell is a text or a number.
abbrev cell_text : Text ⊎ ℤ → Option Text
cell_text (inl t) = some t
cell_text (inr z) = none

abbrev cell_int : Text ⊎ ℤ → ℤ
cell_int (inl t) = pos 0
cell_int (inr z) = z

abbrev column : List (Text ⊎ ℤ) → ℕ → Text ⊎ ℤ
column row i = get_or row i (inl [])

abbrev number_row : ℤ → List (Text ⊎ ℤ)
number_row z = inr z ∷ []

abbrev text_row : Text → List (Text ⊎ ℤ)
text_row t = inl t ∷ []

abbrev location_row : Position ℤ → List (Text ⊎ ℤ)
location_row p = inr p.x ∷ inr p.y ∷ inr p.z ∷ []

-- The numbers of a text, with the digits read of the first.
abbrev numbers_in : Text → Text → List ℤ
numbers_in digits [] = pos (value 0 digits) ∷ []
numbers_in digits (c ∷ t) = elim (c == b',') [
  | true ↦ pos (value 0 digits) ∷ numbers_in [] t
  | false ↦ elim (c == b' ') [
    | true ↦ numbers_in digits t
    | false ↦ numbers_in (digits ++ (c ∷ [])) t
  ]
]

abbrev update_prefix : Text
update_prefix =
    codes
      "INSERT OR REPLACE INTO locations (device_id, pos_x, pos_y, pos_z, employee_id) VALUES (7,"

-- The position that a statement writes.
abbrev read_location : Text → Position ℤ
read_location sql =
    let numbers = numbers_in [] (drop (length update_prefix) sql) in
    record {
      x = get_or numbers 0 (pos 0);
      y = get_or numbers 1 (pos 0);
      z = get_or numbers 2 (pos 0);
    }

-- The addresses of a table.
abbrev addresses : List AccessPointRssi → List Text
addresses [] = []
addresses ((access_point, rssi) ∷ table) = insert_id access_point.mac_addr (addresses table)

abbrev run : Rows → Text → Rows × Bool
run db sql =
    if text_eq sql (delete_text seven)
    then (record db { table = [] }, true)
    else if text_eq sql (insert_text seven upload)
    then (record db { table = upload ++ db.table }, true)
    else if starts_with sql update_prefix
    then (record db { placed = some (read_location sql) }, true)
    else (db, true)

abbrev query : Rows → Text → List (List (Text ⊎ ℤ))
query db sql =
    if text_eq sql (distinct_text seven)
    then map text_row (addresses db.table)
    else if starts_with sql (codes "SELECT pos_x")
    then map location_row (rows_for db.placed)
    else map number_row (strengths (cut (drop 40 sql)) db.table)

abbrev pub small_store : Sqlite ℕ Rows (List (Text ⊎ ℤ)) ℤ
small_store = record {
  open_file = λ db file. (some 1, true);
  close = λ h db. db;
  exec = λ h db sql. run db sql;
  select = λ h db sql. (query db sql, true);
  column_double = λ row i. cell_int (column row i);
  column_text = λ row i. cell_text (column row i);
  column_int = λ row i. cell_int (column row i);
}

map-number_row : (xs : List ℤ) → map (λ row. cell_int (column row 0)) (map number_row xs) ≡ xs
map-number_row [] = refl
map-number_row (x ∷ xs) = ap (◌∷◌ x) (map-number_row xs)

map-text_row :
    (ts : List Text) → map (λ row. cell_text (column row 0)) (map text_row ts) ≡ map some ts
map-text_row [] = refl
map-text_row (t ∷ ts) = ap (◌∷◌ (some t)) (map-text_row ts)

contains_id-insert_self : (t : Text) (ts : List Text) → contains_id t (insert_id t ts) ≡ true
contains_id-insert_self t [] = rw (text_eq_refl t) refl
contains_id-insert_self t (s ∷ ts) = ground (arith, text_eq_refl t, contains_id-insert_self t ts)

contains_id-insert :
    (t u : Text) (ts : List Text) → contains_id t ts ≡ true → contains_id t (insert_id u ts) ≡ true
contains_id-insert t u [] h = ground arith
contains_id-insert t u (s ∷ ts) h = ground (arith, contains_id-insert t u ts)

addresses-Distinct : (table : List AccessPointRssi) → Distinct (addresses table)
addresses-Distinct [] = tt
addresses-Distinct (row ∷ table) =
    insert_id-Distinct row.0.mac_addr (addresses table) (addresses-Distinct table)

IsCovered-insert :
    (u : Text) (ts : List Text) (table : List AccessPointRssi)
    → IsCovered ts table
    → IsCovered (insert_id u ts) table
IsCovered-insert u ts [] h = tt
IsCovered-insert u ts (row ∷ table) (here, h) =
    (contains_id-insert row.0.mac_addr u ts here, IsCovered-insert u ts table h)

addresses-IsCovered : (table : List AccessPointRssi) → IsCovered (addresses table) table
addresses-IsCovered [] = tt
addresses-IsCovered (row ∷ table) = (
  contains_id-insert_self row.0.mac_addr (addresses table),
  IsCovered-insert row.0.mac_addr (addresses table) table (addresses-IsCovered table),
)

strengths-cons :
    (mac : Text) (row : AccessPointRssi) (table : List AccessPointRssi)
    → strengths mac table ≢ []
    → strengths mac (row ∷ table) ≢ []
strengths-cons mac row table h = ground arith

strengths_self :
    (row : AccessPointRssi) (table : List AccessPointRssi)
    → strengths row.0.mac_addr (row ∷ table) ≢ []
strengths_self row table = rw (text_eq_refl row.0.mac_addr) (λ e. cc)

insert_id-All :
    (P : Text → Type 0) (t : Text) (ts : List Text) → P t → All P ts → All P (insert_id t ts)
insert_id-All P t [] p h = (p, tt)
insert_id-All P t (s ∷ ts) p (q, h) = elim (Bool-cases (text_eq t s)) [
  | inl same ↦ rw same (q, h)
  | inr other ↦ rw other (q, insert_id-All P t ts p h)
]

addresses_present :
    (table : List AccessPointRssi) → All (λ mac. strengths mac table ≢ []) (addresses table)
addresses_present [] = tt
addresses_present (row ∷ table) =
    insert_id-All (λ mac. strengths mac (row ∷ table) ≢ []) row.0.mac_addr (addresses table)
      (strengths_self row table)
      (All-implies (λ mac. strengths-cons mac row table) (addresses table)
        (addresses_present table))

query-series :
    (db : Rows) (mac : Text)
    → query db (series_text seven mac) ≡ map number_row (strengths mac db.table)
unfolding text_eq starts_with
query-series db mac = ap (λ t. map number_row (strengths t db.table)) (cut-append mac 39 b';')

-- The contents that the rows are.
abbrev pub IsRepresented : Rows → Contents ℤ → Type 0
IsRepresented db c =
    (of_list db.table ≡ c.readings seven)
    × (db.placed ≡ c.positions seven)
    × (c.staff nine ≡ seven ∷ [])

pub small_store-Holds : (db : Rows) (h : Option ℕ) → Holds small_store h db seven db.table
unfolding text_eq
small_store-Holds db h = record {
  macs = addresses db.table;
  listed = map-text_row (addresses db.table);
  once = addresses-Distinct db.table;
  complete = addresses-IsCovered db.table;
  present = addresses_present db.table;
  series = λ mac.
      subst (λ l. Perm l (strengths mac db.table))
        (sym (
          ap (map (λ (row : List (Text ⊎ ℤ)). cell_int (column row 0))) (query-series db mac)
          ∙ map-number_row (strengths mac db.table)))
        (Perm.refl (strengths mac db.table));
}

map-location_row :
    (o : Option (Position ℤ))
    → map (row_position small_store) (map location_row (rows_for o)) ≡ rows_for o
map-location_row none = refl
map-location_row (some p) = refl

rows_for-with_position : (o : Option (Position ℤ)) → rows_for o ≡ with_position o []
rows_for-with_position none = refl
rows_for-with_position (some p) = refl

pub found :
    (db : Rows) (c : Contents ℤ) (id : Text)
    → id ≡ seven
    → IsRepresented db c
    → (map (row_position small_store) (query db (position_text id)) ≡ rows_for (c.positions id))
      × (true ≡ true)
unfolding text_eq starts_with
found db c id name r =
    (map-location_row db.placed ∙ ap rows_for (r.1 ∙ ap c.positions (sym name)), refl)

pub found_employee :
    (db : Rows) (c : Contents ℤ) (e : Text)
    → e ≡ nine
    → IsRepresented db c
    → Perm
        (map (row_position small_store) (query db (employee_text e)))
        (positions_of c (c.staff e))
      × (true ≡ true)
unfolding text_eq starts_with
found_employee db c e name r =
    let is : map (row_position small_store) (query db (employee_text e))
        ≡ positions_of c (c.staff e) =
      map-location_row db.placed
      ∙ ap rows_for r.1
      ∙ rows_for-with_position (c.positions seven)
      ∙ ap (positions_of c) (sym r.2 ∙ ap c.staff (sym name)) in
    (
      subst (λ l. Perm l (positions_of c (c.staff e))) (sym is)
          (Perm.refl (positions_of c (c.staff e))),
      refl,
    )

pub inserted :
    (db : Rows) (c : Contents ℤ) (id : Text) (readings : List AccessPointRssi)
    → id ≡ seven
    → readings ≡ upload
    → IsRepresented db c
    → let (after, ok) = run db (insert_text id readings) in
      IsRepresented after (if ok then add_readings id readings c else c)
unfolding join print_ℤ decimal text_eq
inserted db c id readings name uploaded r =
    let Goal : Text → List AccessPointRssi → Type 0 = λ t rs.
      let (after, ok) = run db (insert_text t rs) in
      IsRepresented after (if ok then add_readings t rs c else c) in
    subst (λ t. Goal t readings) (sym name)
      (subst (Goal seven) (sym uploaded) (ap (add (of_list upload)) r.0, r.1, r.2))

unfoldable pub small_contract : Contract integers small_store
unfolding text_eq starts_with join print_ℤ decimal
small_contract = record {
  IsOpen = λ h. Unit {0};
  IsName = λ t. t ≡ seven;
  IsEmployee = λ e. e ≡ nine;
  IsUpload = λ rs. rs ≡ upload;
  Represents = IsRepresented;
  stored = λ p. read_location (location_text integers seven p);
  opens = λ db. (tt, refl);
  closes = λ h db c _ r. r;
  creates_locations = λ h db c _ r. r;
  creates = λ h db c id _ name r. r;
  inserts = λ h db c id readings _ name uploaded r. inserted db c id readings name uploaded r;
  deletes = λ h db c id _ name r. rw name (refl, r.1, r.2);
  updates = λ h db c id p _ name r. rw name (r.0, refl, r.2);
  finds = λ h db c id _ name r. found db c id name r;
  finds_employee = λ h db c e _ name r. found_employee db c e name r;
  lists = λ h db c id _ name r. (
    db.table,
    r.0 ∙ ap c.readings (sym name),
    subst (λ t. Holds small_store h db t db.table) (sym name) (small_store-Holds db h),
  );
}

-- ===== src/DataStore/Statements.antt =====
-- The statements of server/src/data_store.cpp.
use indoor_navigation_system.Base.{
  lt→ltb, true, false, Bool, ℕ, ◌+◌, ◌-◌, ◌≡◌, refl, ap, ◌∙◌, Text, codes, print_ℤ, join, List, [],
  ◌∷◌, ◌++◌, map, length, ltb, arith, if◌then◌else◌,
}
use mathlib.Core.List.{append_assoc, append-nil}
use indoor_navigation_system.DataStore.{AccessPointRssi, readings_from, insert_readings_sql}

-- One reading as a row of values.
abbrev pub row : AccessPointRssi → Text
row (access_point, rssi) =
    codes "('" ++ (access_point.mac_addr ++ (codes "'," ++ (print_ℤ rssi ++ codes ")")))

abbrev comma : Bool → Text
comma last = if last then codes "," else []

readings_from-row :
    (size i : ℕ) (r : AccessPointRssi) (rs : List AccessPointRssi)
    → readings_from size i (r ∷ rs)
      ≡ row r ++ (comma (ltb i (size - 1)) ++ readings_from size (i + 1) rs)
unfolding readings_from
readings_from-row size i (access_point, rssi) rs = simp append_assoc

readings_from-join :
    (i size : ℕ) (readings : List AccessPointRssi)
    → size ≡ i + length readings
    → readings_from size i readings ≡ join (codes ",") (map row readings)
unfolding readings_from join
readings_from-join i size [] e = refl
readings_from-join i size (r ∷ []) e =
    let last : ltb i (size - 1) ≡ false = ground arith in
    readings_from-row size i r [] ∙ ap (λ b. row r ++ (comma b ++ [])) last ∙ append-nil (row r)
readings_from-join i size (r ∷ s ∷ rest) e =
    let more : ltb i (size - 1) ≡ true = lt→ltb _ _ (omega arith) in
    readings_from-row size i r (s ∷ rest)
    ∙ ap (λ b. row r ++ (comma b ++ readings_from size (i + 1) (s ∷ rest))) more
    ∙ ap (λ t. row r ++ (codes "," ++ t)) (readings_from-join (i + 1) size (s ∷ rest) (omega arith))

-- The statement that inserts readings lists them as rows with commas between, in order, and none
-- before the first or behind the last.
pub insert_readings_sql-join :
    (id : Text) (readings : List AccessPointRssi)
    → insert_readings_sql id readings
      ≡ codes "INSERT INTO dev_"
        ++ (id
            ++ (codes " (mac_addr, rssi) VALUES"
                ++ (join (codes ",") (map row readings) ++ codes ";")))
unfolding insert_readings_sql
insert_readings_sql-join id readings =
    rw (readings_from-join 0 (length readings) readings (omega arith))

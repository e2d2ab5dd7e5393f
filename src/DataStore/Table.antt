-- ===== src/DataStore/Table.antt =====
-- The table of a device in the database of server/src/data_store.cpp, as a list of its rows, and
-- what SQLite documents of the queries on it: the distinct addresses are those of the rows and come
-- once each, and the signal strengths of an address come all; neither comes in an order that one can
-- rely on.
use indoor_navigation_system.Base.{
  subst, Perm-empty, ◌≢◌, All, codes, ◌≡◌, refl, Text, Option, some, List, [], ◌∷◌, ◌++◌, map,
}
use indoor_navigation_system.DataStore.Groups.{
  IsHeard, strengths, IsCovered, all_rows, grouped, grouped-Perm,
}
use mathlib.Core.List.{Perm}
use mathlib.Core.List.Perm
use indoor_navigation_system.WifiNode.Registry.Numbers.{Distinct}
use indoor_navigation_system.DataStore.{
  Sqlite, AccessPoint, AccessPointRssi, distinct_sql, series_sql,
}
use indoor_navigation_system.DataStore.Operations.{
  get_distinct_access_points, read_access_points, get_rssi_series_data,
  get_rssi_series_from_database,
}

-- The two queries, as SQLite gets them.
abbrev pub distinct_text : Text → Text
distinct_text id = codes "SELECT DISTINCT mac_addr FROM dev_" ++ (id ++ codes ";")

abbrev pub series_text : Text → Text → Text
series_text id mac =
    codes "SELECT rssi FROM dev_" ++ (id ++ (codes " where mac_addr ='" ++ (mac ++ codes "';")))

module _ {H B R D : Type 0} (sqlite : Sqlite H B R D) (h : Option H) (db : B) (id : Text) where
  open sqlite use {select, column_text, column_int}

  -- What SQLite answers to the two queries on a table with some rows.
  pub record Holds (table : List AccessPointRssi) : Type 0 where
    pub macs : List Text
    pub listed : map (λ row. column_text row 0) (select h db (distinct_text id)).0 ≡ map some macs
    pub once : Distinct macs
    pub complete : IsCovered macs table
    pub present : All (λ mac. strengths mac table ≢ []) macs
    pub series :
        (mac : Text)
        → Perm
            (map (λ row. column_int row 0) (select h db (series_text id mac)).0)
            (strengths mac table)

  abbrev pub access_points : List Text → List AccessPoint
  access_points macs = map (λ mac. record { mac_addr = mac }) macs

  read_access_points-map :
      (rows : List R) (macs : List Text)
      → map (λ row. column_text row 0) rows ≡ map some macs
      → read_access_points sqlite rows ≡ some (access_points macs)
  unfolding read_access_points
  read_access_points-map [] [] e = refl
  read_access_points-map [] (mac ∷ macs) e = cc
  read_access_points-map (row ∷ rows) [] e = cc
  read_access_points-map (row ∷ rows) (mac ∷ macs) e =
      let first : column_text row 0 ≡ some mac = cc in
      let others : map (λ row. column_text row 0) rows ≡ map some macs = cc in
      rw (first, read_access_points-map rows macs others) refl

  module _ {table : List AccessPointRssi} (holds : Holds table) where
    pub get_distinct_access_points-map :
        get_distinct_access_points sqlite h db id ≡ some (access_points holds.macs)
    unfolding get_distinct_access_points distinct_sql
    get_distinct_access_points-map = read_access_points-map _ holds.macs holds.listed

    series-grouped :
        (macs : List Text)
        → Perm
            (all_rows (get_rssi_series_data sqlite h db id (access_points macs)))
            (grouped macs table)
    unfolding get_rssi_series_data get_rssi_series_from_database series_sql
    series-grouped [] = Perm.refl []
    series-grouped (mac ∷ macs) =
        Perm.append (Perm.map (λ rssi. (record { mac_addr = mac }, rssi)) (holds.series mac))
          (series-grouped macs)

    series-heard :
        (macs : List Text)
        → All (λ mac. strengths mac table ≢ []) macs
        → All IsHeard (get_rssi_series_data sqlite h db id (access_points macs))
    unfolding get_rssi_series_data get_rssi_series_from_database series_sql
    series-heard [] present = tt
    series-heard (mac ∷ macs) (here, present) = (
      λ e. here (Perm-empty (subst (λ l. Perm l (strengths mac table)) e (holds.series mac))),
      series-heard macs present,
    )

    -- Every access point has readings.
    pub get_rssi_series_data-IsHeard :
        All IsHeard (get_rssi_series_data sqlite h db id (access_points holds.macs))
    get_rssi_series_data-IsHeard = series-heard holds.macs holds.present

    -- The readings by access point are the rows of the table, each once.
    pub get_rssi_series_data-Perm :
        Perm (all_rows (get_rssi_series_data sqlite h db id (access_points holds.macs))) table
    get_rssi_series_data-Perm =
        Perm.trans (series-grouped holds.macs)
          (grouped-Perm holds.macs table holds.once holds.complete)

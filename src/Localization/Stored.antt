-- ===== src/Localization/Stored.antt =====
-- What `ProcessRSSIDataSet` of server/src/localization.cpp makes of the rows that the database holds.
use indoor_navigation_system.DataStore.Table.{
  get_rssi_series_data-IsHeard, Holds, access_points, get_distinct_access_points-map,
  get_rssi_series_data-Perm,
}
use indoor_navigation_system.DataStore.Groups.{IsHeard, all_rows}
use indoor_navigation_system.Base.{
  All, ◌≡◌, refl, ap, sym, subst, suc, ◌∙◌, pos, Text, codes, Option, none, some, ◌>>=◌, List, [],
  ◌∷◌, map, length, ltb, if◌then◌else◌,
}
use mathlib.Core.Option
use mathlib.Core.List.{Perm}
use indoor_navigation_system.Machine.{Machine}
use indoor_navigation_system.WifiNode.{InsNode}
use indoor_navigation_system.WifiNode.Config.{ConfigReader}
use indoor_navigation_system.WifiNode.Registry.Numbers.{Distinct}
use indoor_navigation_system.DataStore.{Sqlite, Position, AccessPoint, AccessPointRssi}
use indoor_navigation_system.DataStore.Operations.{
  AccessPointRssiList, init, close_store, get_rssi_series_data,
}
use indoor_navigation_system.Localization.{locate_device, position_of, process_rssi_data_set}

module _ {F D H B R : Type 0} (m : Machine F D) (reader : ConfigReader F) (unwritten : Text)
    (sqlite : Sqlite H B R D) where
  addresses-get_rssi_series_data :
      (h : Option H) (db : B) (id : Text) (macs : List Text)
      → map
          (λ (e : AccessPointRssiList). e.0.mac_addr)
          (get_rssi_series_data sqlite h db id (access_points sqlite h db id macs))
        ≡ macs
  unfolding get_rssi_series_data
  addresses-get_rssi_series_data h db id [] = refl
  addresses-get_rssi_series_data h db id (mac ∷ macs) =
      ap (◌∷◌ mac) (addresses-get_rssi_series_data h db id macs)

  -- The position that stands for too few access points.
  abbrev pub nowhere : Position D
  nowhere =
      let nought = m.widen (m.int_to_float (pos 0)) in record { x = nought; y = nought; z = nought }

  -- The nodes and the position for the readings by access point: nothing is located by fewer than
  -- three.
  abbrev pub located_by :
      List (InsNode F) → Text → List AccessPointRssiList → Option (List (InsNode F) × Position D)
  located_by nodes id list =
      if ltb (length list) 3
      then some (nodes, nowhere)
      else locate_device m reader unwritten nodes id list

  length-get_rssi_series_data :
      (h : Option H) (db : B) (id : Text) (distinct : List AccessPoint)
      → length (get_rssi_series_data sqlite h db id distinct) ≡ length distinct
  unfolding get_rssi_series_data
  length-get_rssi_series_data h db id [] = refl
  length-get_rssi_series_data h db id (access_point ∷ distinct) =
      ap suc (length-get_rssi_series_data h db id distinct)

  position_of-located_by :
      (h : Option H) (db : B) (nodes : List (InsNode F)) (id : Text) (distinct : List AccessPoint)
      → position_of m reader unwritten sqlite h db nodes id distinct
        ≡ located_by nodes id (get_rssi_series_data sqlite h db id distinct)
  unfolding position_of
  position_of-located_by h db nodes id distinct =
      let list = get_rssi_series_data sqlite h db id distinct in
      ap
        (λ n.
          if ltb n 3 then some (nodes, nowhere) else locate_device m reader unwritten nodes id list)
        (sym (length-get_rssi_series_data h db id distinct))

  abbrev pub with_database : B → List (InsNode F) × Position D → B × List (InsNode F) × Position D
  with_database db r = (db, r.0, r.1)

  bind-map :
      (db : B) (o : Option (List (InsNode F) × Position D))
      → (o >>= λ r. some (with_database db r)) ≡ Option.map (with_database db) o
  bind-map db none = refl
  bind-map db (some r) = refl

  -- If the reopened database holds the rows of a table for a device, the run locates the device by a
  -- list of access points that are all different and each have readings, whose readings are the rows
  -- of the table, each used once and for its own access point; with fewer than three access points
  -- the nodes stay as they are and the position is zero.
  pub process_rssi_data_set-Perm :
      (db : B) (nodes : List (InsNode F)) (id : Text) (table : List AccessPointRssi)
      → let (h, opened) = init sqlite db (codes "../ins.db") in
        Holds sqlite h opened id table
        → let (h, opened) = init sqlite db (codes "../ins.db") in
          (list : List AccessPointRssiList) × Perm (all_rows list) table
          × Distinct (map (λ (e : AccessPointRssiList). e.0.mac_addr) list)
          × All IsHeard list
          × (process_rssi_data_set m reader unwritten sqlite db nodes id
              ≡ Option.map
                  (with_database (close_store sqlite h opened).1)
                  (located_by nodes id list))
  unfolding process_rssi_data_set position_of
  process_rssi_data_set-Perm db nodes id table holds =
      let (h, opened) = init sqlite db (codes "../ins.db") in
      let closed = (close_store sqlite h opened).1 in
      let distinct = access_points sqlite h opened id holds.macs in
      let list = get_rssi_series_data sqlite h opened id distinct in
      (
        list,
        get_rssi_series_data-Perm sqlite h opened id holds,
        subst Distinct (sym (addresses-get_rssi_series_data h opened id holds.macs)) holds.once,
        get_rssi_series_data-IsHeard sqlite h opened id holds,
        ap
              (λ o. o >>= λ d. position_of m reader unwritten sqlite h opened nodes id d >>= λ r.
                some (with_database closed r))
              (get_distinct_access_points-map sqlite h opened id holds)
            ∙ ap (λ o. o >>= λ r. some (with_database closed r))
                (position_of-located_by h opened nodes id distinct)
            ∙ bind-map closed (located_by nodes id list),
      )

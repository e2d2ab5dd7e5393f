-- ===== src/Tests/Stored.antt =====
-- A database of server/src/data_store.cpp with four readings of device 7.
use indoor_navigation_system.DataStore.Groups.{IsHeard, all_rows, strengths}
use indoor_navigation_system.Base.{
  All, ℕ, ℤ, pos, negsuc, Text, codes, text_eq, Option, none, some, List, [], ◌∷◌, ◌++◌, ◌≡◌, refl,
  ap, sym, subst, ◌∙◌, ◌⊎◌, inl, inr, map, drop, true, if◌then◌else◌,
}
use indoor_navigation_system.DataStore.Table.{series_text, distinct_text, Holds}
use mathlib.Core.Option
use mathlib.Core.List.{Perm}
use mathlib.Core.List.Perm
use indoor_navigation_system.Machine.Integers.{integers}
use indoor_navigation_system.WifiNode.Registry.Numbers.{Distinct}
use indoor_navigation_system.DataStore.{Sqlite, AccessPointRssi}
use indoor_navigation_system.DataStore.Operations.{
  AccessPointRssiList, init, close_store, create_location_table,
}
use indoor_navigation_system.Localization.{process_rssi_data_set}
use indoor_navigation_system.Localization.Stored.{
  located_by, with_database, process_rssi_data_set-Perm,
}
use indoor_navigation_system.Tests.{wired_node}
use indoor_navigation_system.Tests.Registry.{uniform}

abbrev reading : Text → ℤ → AccessPointRssi
reading mac rssi = (record { mac_addr = mac }, rssi)

abbrev table : List AccessPointRssi
table =
    reading (codes "aa") (negsuc 49)
    ∷ reading (codes "bb") (negsuc 59)
    ∷ reading (codes "aa") (negsuc 51)
    ∷ reading (codes "cc") (negsuc 69)
    ∷ []

-- A text without its last two characters.
abbrev pub cut : Text → Text
cut [] = []
cut (a ∷ []) = []
cut (a ∷ b ∷ []) = []
cut (a ∷ b ∷ c ∷ t) = a ∷ cut (b ∷ c ∷ t)

pub cut-append : (t : Text) (a b : ℕ) → cut (t ++ (a ∷ b ∷ [])) ≡ t
cut-append [] a b = refl
cut-append (c ∷ []) a b = refl
cut-append (c ∷ d ∷ []) a b = refl
cut-append (c ∷ d ∷ e ∷ t) a b = ap (◌∷◌ c) (cut-append (d ∷ e ∷ t) a b)

abbrev row_text : Text ⊎ ℤ → Option Text
row_text (inl t) = some t
row_text (inr z) = none

abbrev row_int : Text ⊎ ℤ → ℤ
row_int (inl t) = pos 0
row_int (inr z) = z

abbrev four_rows : Sqlite ℕ ℕ (Text ⊎ ℤ) ℤ
four_rows = record {
  open_file = λ db file. (some 1, true);
  close = λ h db. db;
  exec = λ h db sql. (db, true);
  select = λ h db sql.
      if text_eq sql (distinct_text (codes "7"))
      then (inl (codes "cc") ∷ inl (codes "aa") ∷ inl (codes "bb") ∷ [], true)
      else (map inr (strengths (cut (drop 40 sql)) table), true);
  column_double = λ row i. row_int row;
  column_text = λ row i. row_text row;
  column_int = λ row i. row_int row;
}

map-row_int : (xs : List ℤ) → map row_int (map inr xs) ≡ xs
map-row_int [] = refl
map-row_int (x ∷ xs) = ap (◌∷◌ x) (map-row_int xs)

four_rows-series :
    (mac : Text)
    → map row_int (four_rows.select (some 1) 0 (series_text (codes "7") mac)).0
      ≡ strengths mac table
unfolding text_eq
four_rows-series mac = map-row_int _ ∙ ap (λ t. strengths t table) (cut-append mac 39 b';')

four_rows-Holds : Holds four_rows (some 1) 0 (codes "7") table
unfolding text_eq
four_rows-Holds = record {
  macs = codes "cc" ∷ codes "aa" ∷ codes "bb" ∷ [];
  listed = refl;
  once = (refl, (refl, (refl, tt)));
  complete = (refl, (refl, (refl, (refl, tt))));
  present = (λ e. cc, (λ e. cc, (λ e. cc, tt)));
  series = λ mac.
      subst (λ l. Perm l (strengths mac table)) (sym (four_rows-series mac))
        (Perm.refl (strengths mac table));
}

reopened : init four_rows 0 (codes "../ins.db") ≡ (some 1, 0)
unfolding init create_location_table
reopened = refl

process_rssi_data_set-Perm_example :
    (list : List AccessPointRssiList) × Perm (all_rows list) table
    × Distinct (map (λ (e : AccessPointRssiList). e.0.mac_addr) list)
    × All IsHeard list
    × (process_rssi_data_set integers uniform [] four_rows 0 (wired_node ∷ []) (codes "7")
        ≡ Option.map
            (with_database integers uniform [] four_rows 0)
            (located_by integers uniform [] four_rows (wired_node ∷ []) (codes "7") list))
unfolding init create_location_table close_store
process_rssi_data_set-Perm_example =
    process_rssi_data_set-Perm integers uniform [] four_rows 0 (wired_node ∷ []) (codes "7") table
      four_rows-Holds

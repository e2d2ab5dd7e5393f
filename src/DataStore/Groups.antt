-- ===== src/DataStore/Groups.antt =====
-- The rows of a table of server/src/data_store.cpp by their addresses: a list of readings and its
-- groups are permutations of one another.
use indoor_navigation_system.Base.{
  length-append, ◌≤◌, ◌≢◌, length, text_eq_refl, if◌then◌else◌, refl, inr, eq_of_text_eq, inl,
  arith, ap, Bool-cases, ◌∙◌, ◌++◌, false, sym, true, All, subst, ℤ, ◌≡◌, text_eq, ◌∷◌, [], map,
  Text, List,
}
use mathlib.Core.List.{Perm, perm_middle}
use mathlib.Core.List.Perm
use indoor_navigation_system.WifiNode.Registry.Lookup.{contains_id}
use indoor_navigation_system.WifiNode.Registry.Numbers.{Distinct}
use indoor_navigation_system.DataStore.{AccessPointRssi}
use indoor_navigation_system.DataStore.Operations.{AccessPointRssiList}

-- The strengths of an address, in the order of the rows.
abbrev pub strengths : Text → List AccessPointRssi → List ℤ
strengths mac [] = []
strengths mac ((access_point, rssi) ∷ table) =
    let rest = strengths mac table in
    if text_eq access_point.mac_addr mac then rssi ∷ rest else rest

-- Every address of the table is among some.
abbrev pub IsCovered : List Text → List AccessPointRssi → Type 0
IsCovered macs = All (λ (row : AccessPointRssi). contains_id row.0.mac_addr macs ≡ true)

-- The rows of one access point.
abbrev pub rows_of : AccessPointRssiList → List AccessPointRssi
rows_of (access_point, series) = map (λ rssi. (access_point, rssi)) series

-- The rows of all.
abbrev pub all_rows : List AccessPointRssiList → List AccessPointRssi
all_rows [] = []
all_rows (entry ∷ list) = rows_of entry ++ all_rows list

-- An access point has readings.
abbrev pub IsHeard : AccessPointRssiList → Type 0
IsHeard e = e.1 ≢ []

pub length-all_rows :
    (list : List AccessPointRssiList) → All IsHeard list → length list ≤ length (all_rows list)
length-all_rows [] heard = omega arith
length-all_rows ((access_point, []) ∷ list) (heard, others) = absurd (heard refl)
length-all_rows ((access_point, rssi ∷ series) ∷ list) (heard, others) = omega (
  arith,
  length-append (rows_of (access_point, series)) (all_rows list),
  length-all_rows list others,
)

-- The table by its addresses.
abbrev pub grouped : List Text → List AccessPointRssi → List AccessPointRssi
grouped [] table = []
grouped (mac ∷ macs) table =
    rows_of (record { mac_addr = mac }, strengths mac table) ++ grouped macs table

grouped-nil : (macs : List Text) → grouped macs [] ≡ []
grouped-nil [] = refl
grouped-nil (mac ∷ macs) = grouped-nil macs

contains_id-cons_false :
    (t u : Text) (us : List Text)
    → contains_id t (u ∷ us) ≡ false
    → (text_eq t u ≡ false) × (contains_id t us ≡ false)
contains_id-cons_false t u us h = ground arith

contains_id-cons_true :
    (t u : Text) (us : List Text)
    → contains_id t (u ∷ us) ≡ true
    → text_eq t u ≡ false
    → contains_id t us ≡ true
contains_id-cons_true t u us h e = ground arith

grouped-cons_other :
    (mac : Text) (macs : List Text) (row : AccessPointRssi) (table : List AccessPointRssi)
    → text_eq row.0.mac_addr mac ≡ false
    → grouped (mac ∷ macs) (row ∷ table)
      ≡ rows_of (record { mac_addr = mac }, strengths mac table) ++ grouped macs (row ∷ table)
grouped-cons_other mac macs row table e =
    ap
      (λ b.
        rows_of (
          record { mac_addr = mac },
          if b then row.1 ∷ strengths mac table else strengths mac table,
        )
        ++ grouped macs (row ∷ table))
      e

grouped-cons_same :
    (macs : List Text) (row : AccessPointRssi) (table : List AccessPointRssi)
    → let mac = row.0.mac_addr in
      grouped (mac ∷ macs) (row ∷ table)
      ≡ row
        ∷ (rows_of (record { mac_addr = mac }, strengths mac table) ++ grouped macs (row ∷ table))
grouped-cons_same macs row table =
    let mac = row.0.mac_addr in
    ap
      (λ b.
        rows_of (
          record { mac_addr = mac },
          if b then row.1 ∷ strengths mac table else strengths mac table,
        )
        ++ grouped macs (row ∷ table))
      (text_eq_refl mac)

-- A row of another address is in none of the groups.
grouped-other :
    (macs : List Text) (row : AccessPointRssi) (table : List AccessPointRssi)
    → contains_id row.0.mac_addr macs ≡ false
    → grouped macs (row ∷ table) ≡ grouped macs table
grouped-other [] row table absent = refl
grouped-other (mac ∷ macs) row table absent =
    let (other, absent') = contains_id-cons_false row.0.mac_addr mac macs absent in
    grouped-cons_other mac macs row table other
    ∙ ap (◌++◌ (rows_of (record { mac_addr = mac }, strengths mac table)))
        (grouped-other macs row table absent')

grouped-row_same :
    (mac : Text) (macs : List Text) (row : AccessPointRssi) (table : List AccessPointRssi)
    → row.0.mac_addr ≡ mac
    → contains_id mac macs ≡ false
    → grouped (mac ∷ macs) (row ∷ table) ≡ row ∷ grouped (mac ∷ macs) table
grouped-row_same mac macs row table e new =
    subst
      (λ t.
        contains_id t macs ≡ false
        → grouped (t ∷ macs) (row ∷ table) ≡ row ∷ grouped (t ∷ macs) table)
      e
      (λ absent.
        grouped-cons_same macs row table
        ∙ ap
            (λ g.
              row
              ∷ (rows_of (record { mac_addr = row.0.mac_addr }, strengths row.0.mac_addr table)
                  ++ g))
            (grouped-other macs row table absent))
      new

grouped-row :
    (macs : List Text) (row : AccessPointRssi) (table : List AccessPointRssi)
    → Distinct macs
    → contains_id row.0.mac_addr macs ≡ true
    → Perm (grouped macs (row ∷ table)) (row ∷ grouped macs table)
grouped-row [] row table distinct here = cc
grouped-row (mac ∷ macs) row table (new, distinct) here =
    let group = rows_of (record { mac_addr = mac }, strengths mac table) in
    elim (Bool-cases (text_eq row.0.mac_addr mac)) [
      | inl same ↦
          subst (λ l. Perm l (row ∷ grouped (mac ∷ macs) table))
            (sym (grouped-row_same mac macs row table (eq_of_text_eq row.0.mac_addr mac same) new))
            (Perm.refl (row ∷ grouped (mac ∷ macs) table))
      | inr other ↦
          subst (λ l. Perm l (row ∷ grouped (mac ∷ macs) table))
            (sym (grouped-cons_other mac macs row table other))
            (Perm.trans
              (Perm.append_left group (
                grouped-row macs row table distinct
                  (contains_id-cons_true row.0.mac_addr mac macs here other)))
              (perm_middle group (grouped macs table)))
    ]

pub grouped-Perm :
    (macs : List Text) (table : List AccessPointRssi)
    → Distinct macs
    → IsCovered macs table
    → Perm (grouped macs table) table
grouped-Perm macs [] distinct covered =
    subst (λ t. Perm t []) (sym (grouped-nil macs)) (Perm.refl [])
grouped-Perm macs (row ∷ table) distinct (here, covered) =
    Perm.trans (grouped-row macs row table distinct here)
      (Perm.cons row (grouped-Perm macs table distinct covered))

-- ===== src/DataStore/Contents.antt =====
-- What the tables of server/src/data_store.cpp hold, for a reader who knows no SQL: the readings of
-- each device, of which only the numbers count and not the order, and the position of each device
-- that has one.
pub mod Contract
pub mod Employees
use indoor_navigation_system.Base.{◌∷◌, Text, text_eq, Option, none, some, List, [], if◌then◌else◌}
use mathlib.Mathlib.Data.Multiset.Defs.{Multiset, of_list}
use mathlib.Mathlib.Data.Multiset.AddSub.{add}
use indoor_navigation_system.DataStore.{Position, AccessPointRssi}

pub record Contents (D : Type 0) : Type 0 where
  pub readings : Text → Multiset AccessPointRssi
  pub positions : Text → Option (Position D)
  pub staff : Text → List Text

module _ {D : Type 0} where
  -- No table has a row.
  abbrev pub no_rows : Contents D
  no_rows = record { readings = λ t. of_list []; positions = λ t. none; staff = λ e. [] }

  -- The readings of one request more.
  abbrev pub add_readings : Text → List AccessPointRssi → Contents D → Contents D
  add_readings id rs c = record c {
    readings = λ t. if text_eq t id then add (of_list rs) (c.readings t) else c.readings t;
  }

  abbrev pub clear_readings : Text → Contents D → Contents D
  clear_readings id c = record c {
    readings = λ t. if text_eq t id then of_list [] else c.readings t;
  }

  abbrev pub place : Text → Position D → Contents D → Contents D
  place id p c = record c { positions = λ t. if text_eq t id then some p else c.positions t }

  abbrev pub with_position : Option (Position D) → List (Position D) → List (Position D)
  with_position none ps = ps
  with_position (some p) ps = p ∷ ps

  -- The positions of some devices.
  abbrev pub positions_of : Contents D → List Text → List (Position D)
  positions_of c [] = []
  positions_of c (t ∷ ts) = with_position (c.positions t) (positions_of c ts)

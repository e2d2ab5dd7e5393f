-- ===== src/DataStore/Contents/Employees.antt =====
-- What `GetPosition` of server/src/data_store.cpp answers for an employee.
use mathlib.Core.List.{Perm, Mem, mem-cons_self, mem-cons_of_mem}
use mathlib.Core.List.Perm
use indoor_navigation_system.Base.{
  length-Perm, length, arith, ◌≡◌, refl, ap, sym, subst, true, false, Bool, ◌⊎◌, inl, inr, Text,
  codes, Option, List, [], ◌∷◌, map, ◌++◌,
}
use indoor_navigation_system.Machine.{Machine}
use indoor_navigation_system.DataStore.{QueryT, Position, Sqlite, position_sql}
use indoor_navigation_system.DataStore.Operations.{get_position, read_positions, finish_position}
use indoor_navigation_system.DataStore.Operations.Answers.{row_position}
use indoor_navigation_system.DataStore.Contents.{Contents, positions_of}
use indoor_navigation_system.DataStore.Contents.Contract.{Contract}

-- An answer by some positions: one of them, or none if there is none.
abbrev pub IsOneOf : {D : Type 0} → Position D → List (Position D) → Bool × Position D → Type 0
IsOneOf {D} unset ps answer =
    ((ps ≡ []) × (answer ≡ (false, unset))) ⊎ ((p : Position D) × Mem p ps × (answer ≡ (true, p)))

IsOneOf-Perm :
    {D : Type 0} (unset : Position D) (ps qs : List (Position D)) (answer : Bool × Position D)
    → Perm ps qs
    → IsOneOf unset ps answer
    → IsOneOf unset qs answer
IsOneOf-Perm unset ps [] answer p (inl (none_left, is)) = inl (refl, is)
IsOneOf-Perm unset ps (q ∷ qs) answer p (inl (none_left, is)) =
    absurd (omega (arith, length-Perm p, ap length none_left))
IsOneOf-Perm unset ps qs answer p (inr (one, mem, is)) = inr (one, (Perm.mem_iff p).0 mem, is)

module _ {H B R D : Type 0} (sqlite : Sqlite H B R D) where
  read_positions-Mem :
      (rows : List R) (row : R)
      → (p : Position D) × Mem p (map (row_position sqlite) (row ∷ rows))
        × (read_positions sqlite rows true (row_position sqlite row) ≡ (true, p))
  unfolding read_positions
  read_positions-Mem [] row = (row_position sqlite row, mem-cons_self, refl)
  read_positions-Mem (r ∷ rows) row =
      let (p, mem, is) = read_positions-Mem rows r in
      (p, mem-cons_of_mem (row_position sqlite row) mem, is)

  finish_position-IsOneOf :
      (rows : List R) (unset : Position D)
      → IsOneOf unset (map (row_position sqlite) rows) (finish_position sqlite (rows, true) unset)
  unfolding read_positions
  finish_position-IsOneOf [] unset = inl (refl, refl)
  finish_position-IsOneOf (row ∷ rows) unset = inr (read_positions-Mem rows row)

module _ {F H B R D : Type 0} (m : Machine F D) (sqlite : Sqlite H B R D)
    (contract : Contract m sqlite) where
  -- By the contract, `GetPosition` answers with the position of a device of the employee, if one has
  -- a position.
  pub get_position-IsOneOf :
      (h : Option H) (db : B) (c : Contents D) (e : Text) (unset : Position D)
      → contract.IsOpen h
      → contract.IsEmployee e
      → contract.Represents db c
      → IsOneOf unset
          (positions_of c (c.staff e))
          (get_position sqlite h db e QueryT.employee unset)
  unfolding get_position position_sql
  get_position-IsOneOf h db c e unset opened name r =
      let (found, finished) = contract.finds_employee h db c e opened name r in
      let (rows, _) = sqlite.select h db (
        codes "SELECT pos_x, pos_y, pos_z from locations WHERE employee_id='"
        ++ (e ++ codes "'")) in
      subst
        (λ b. IsOneOf unset (positions_of c (c.staff e)) (finish_position sqlite (rows, b) unset))
        (sym finished) (IsOneOf-Perm unset _ _ _ found (finish_position-IsOneOf sqlite rows unset))

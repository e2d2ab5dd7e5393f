-- ===== src/DataStore/Operations/Answers.antt =====
-- What the queries of server/src/data_store.cpp answer.
use indoor_navigation_system.Base.{
  ◌∙◌, ap, inr, inl, Bool-cases, Bool, true, false, Text, Option, some, List, [], ◌∷◌, ◌++◌, ◌≡◌,
  refl,
}
use indoor_navigation_system.DataStore.{QueryT, Position, Sqlite, position_sql}
use indoor_navigation_system.DataStore.Operations.{read_positions, get_position, finish_position}

module _ {H B R D : Type 0} (sqlite : Sqlite H B R D) where
  open sqlite use {select, column_double}

  -- The position in a row.
  abbrev pub row_position : R → Position D
  row_position row = record {
    x = column_double row 0;
    y = column_double row 1;
    z = column_double row 2;
  }

  read_positions-last :
      (rows : List R) (row : R) (result : Bool) (pos : Position D)
      → read_positions sqlite (rows ++ row ∷ []) result pos ≡ (true, row_position row)
  unfolding read_positions
  read_positions-last [] row result pos = refl
  read_positions-last (r ∷ rows) row result pos = read_positions-last rows row true (row_position r)

  read_positions-found :
      (rows : List R) (pos : Position D) → (read_positions sqlite rows true pos).0 ≡ true
  unfolding read_positions
  read_positions-found [] pos = refl
  read_positions-found (r ∷ rows) pos = read_positions-found rows (row_position r)

  -- What `GetPosition` answers to the end of its query.
  abbrev pub Answer : List R × Bool → Position D → Bool × Position D → Type 0
  Answer ([], finished) pos answer = answer ≡ (false, pos)
  Answer (row ∷ rows, finished) pos answer =
      (answer.0 ≡ finished)
      × ((before : List R) (last : R)
          → row ∷ rows ≡ before ++ last ∷ []
          → answer.1 ≡ row_position last)

  -- `GetPosition` succeeds exactly if its query ends well and gives a row, and the position is then
  -- that of the last row. With no row the position is as before.
  pub get_position-Answer :
      (h : Option H) (db : B) (id : Text) (query_by : QueryT) (pos : Position D) {sql : Text}
      → position_sql id query_by ≡ some sql
      → Answer (select h db sql) pos (get_position sqlite h db id query_by pos)
  unfolding get_position
  get_position-Answer h db id query_by pos {sql} e = rw e (by_rows (select h db sql))
    where
      by_rows : (r : List R × Bool) → Answer r pos (finish_position sqlite r pos)
      by_rows ([], true) = refl
      by_rows ([], false) = refl
      by_rows (row ∷ rows, finished) = (
        elim (Bool-cases finished) [
          | inl f ↦ rw f (read_positions-found rows (row_position row))
          | inr f ↦ rw f
        ],
        λ before last is.
            ap (λ rs. (read_positions sqlite rs false pos).1) is
            ∙ ap (λ a. a.1) (read_positions-last before last false pos),
      )

  -- A kind of id that has no name is refused: the result is false and the position as before.
  get_position-other :
      (h : Option H) (db : B) (id : Text) (pos : Position D)
      → get_position sqlite h db id QueryT.other pos ≡ (false, pos)
  unfolding get_position position_sql
  get_position-other h db id pos = refl

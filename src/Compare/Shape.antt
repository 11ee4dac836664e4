-- ===== src/Compare/Shape.antt =====
-- The table that an engine's result carries, for `_run` of backend/app/routes/query.py.
use open_htap_stack.Prelude.{
  ℕ, ◌≡◌, refl, sym, String, Bool, true, false, Option, none, some, List, [], ◌∷◌, length,
  length-map, All, if◌then◌else◌, inl, inr, ◌⊎◌,
}
use open_htap_stack.Compare.Answers.{
  ResultRow, EngineRows, rows, failed, Engine, EngineResult, EngineFigures, not_available,
  result_columns, result_cells, result_table, result_of, run_connected, after_connect, run_engine,
}

module _ (V : Type 0) where
  -- A result whose rows all have a cell for each column, which counts its rows, and which has either no
  -- error or no rows.
  unfoldable pub IsRectangular : EngineResult V → Type 0
  IsRectangular r =
      All (λ row. length row ≡ length r.columns) r.rows
      × ((r.row_count ≡ length r.rows) × ((r.error ≡ none) ⊎ (r.rows ≡ [])))

  length-result_cells :
      (columns : List String) (r : ResultRow V) → length (result_cells V columns r) ≡ length columns
  unfolding result_cells
  length-result_cells columns r = length-map _ columns

  result_table-All :
      (columns : List String) (rs : List (ResultRow V))
      → All (λ (row : List (Option V)). length row ≡ length columns) (result_table V columns rs)
  unfolding result_table
  result_table-All columns [] = tt
  result_table-All columns (r ∷ rs) = (length-result_cells columns r, result_table-All columns rs)

  length-result_table :
      (columns : List String) (rs : List (ResultRow V))
      → length (result_table V columns rs) ≡ length rs
  unfolding result_table
  length-result_table columns rs = length-map _ rs

  result_of-IsRectangular :
      (statement : String) (f : EngineFigures) (a : EngineRows V)
      → IsRectangular (result_of V statement f a)
  unfolding result_of IsRectangular
  result_of-IsRectangular statement f (failed e) = (tt, (refl, inr refl))
  result_of-IsRectangular statement f (rows rs) = (
    result_table-All (result_columns V rs) rs,
    (sym (length-result_table (result_columns V rs) rs), inl refl),
  )

  run_connected-IsRectangular :
      (e : Engine V) (sql : String) (limit : ℕ) (reuse : Bool)
      → IsRectangular (run_connected V e sql limit reuse)
  unfolding run_connected
  run_connected-IsRectangular e sql limit reuse = result_of-IsRectangular _ _ _

  after_connect-IsRectangular :
      (e : Engine V) (error : Option String) (connects : Bool) (sql : String) (limit : ℕ)
      (reuse : Bool)
      → IsRectangular (after_connect V e error connects sql limit reuse)
  unfolding after_connect not_available IsRectangular
  after_connect-IsRectangular e (some text) connects sql limit reuse = (tt, (refl, inr refl))
  after_connect-IsRectangular e none false sql limit reuse = (tt, (refl, inr refl))
  after_connect-IsRectangular e none true sql limit reuse =
      run_connected-IsRectangular e sql limit reuse

  choose-IsRectangular :
      (b : Bool) (x y : EngineResult V)
      → IsRectangular x
      → IsRectangular y
      → IsRectangular (if b then x else y)
  choose-IsRectangular true x y p q = p
  choose-IsRectangular false x y p q = q

  -- Whatever the client does, connected or not, failing or not, the result of one engine is a table
  -- whose rows have a cell for each column, with the number of its rows, and has no error or no rows.
  run_engine-IsRectangular :
      (e : Engine V) (sql : String) (limit : ℕ) (reuse : Bool)
      → IsRectangular (run_engine V e sql limit reuse)
  unfolding run_engine
  run_engine-IsRectangular e sql limit reuse =
      choose-IsRectangular e.connected _ _ (run_connected-IsRectangular e sql limit reuse)
        (after_connect-IsRectangular e e.connect_error e.connects sql limit reuse)

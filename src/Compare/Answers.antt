-- ===== src/Compare/Answers.antt =====
-- `_run` and `_reported_figures` of backend/app/routes/query.py: what one engine answers. A cell is any
-- value; the clients and the dialects are parameters.
use open_htap_stack.Prelude.{
  ℕ, String, Bool, true, false, ◌&&◌, Option, none, some, List, [], ◌∷◌, map, if◌then◌else◌, length,
  lookup,
}

-- What a client measured of its last read, where it measures anything. Times and sizes are whole.
pub record EngineFigures : Type 0 where
  pub snapshot_bytes : Option ℕ
  pub snapshot_ms : Option ℕ
  pub snapshot_reused : Bool
  pub snapshot_age_s : Option ℕ
  pub sstable_files : Option ℕ
  pub sstable_bytes : Option ℕ
  pub reader_open_ms : Option ℕ
  pub data_age_s : Option ℕ

-- The attributes that `getattr` asks a client for; one without them has `none` everywhere.
pub record Attributes : Type 0 where
  pub last_snapshot_bytes : Option ℕ
  pub last_snapshot_ms : Option ℕ
  pub last_snapshot_reused : Option Bool
  pub last_snapshot_age_s : Option ℕ
  pub last_sstable_files : Option ℕ
  pub last_sstable_bytes : Option ℕ
  pub last_reader_open_ms : Option ℕ
  pub last_data_age_s : Option ℕ

abbrev pub truth_of : Option Bool → Bool
truth_of none = false
truth_of (some b) = b

-- `_reported_figures`
unfoldable pub reported_figures : Attributes → EngineFigures
reported_figures a = record {
  snapshot_bytes = a.last_snapshot_bytes;
  snapshot_ms = a.last_snapshot_ms;
  snapshot_reused = truth_of a.last_snapshot_reused;
  snapshot_age_s = a.last_snapshot_age_s;
  sstable_files = a.last_sstable_files;
  sstable_bytes = a.last_sstable_bytes;
  reader_open_ms = a.last_reader_open_ms;
  data_age_s = a.last_data_age_s;
}

abbrev pub no_engine_figures : EngineFigures
no_engine_figures = record {
  snapshot_bytes = none;
  snapshot_ms = none;
  snapshot_reused = false;
  snapshot_age_s = none;
  sstable_files = none;
  sstable_bytes = none;
  reader_open_ms = none;
  data_age_s = none;
}

module _ (V : Type 0) where
  -- A row, by its columns.
  abbrev pub ResultRow : Type 0
  ResultRow = List (String × V)

  pub data EngineRows : Type 0 where
    rows : List ResultRow → EngineRows
    failed : String → EngineRows

  -- A client: whether it is connected, whether `connect` raises and, if not, leaves it connected, and
  -- what a statement comes to, with or without the reuse of a snapshot, and what was measured.
  pub record Engine : Type 0 where
    pub connected : Bool
    pub connect_error : Option String
    pub connects : Bool
    pub supports_snapshot_reuse : Bool
    pub execute_query : String → Bool → EngineRows
    pub attributes : Attributes
    pub dialect : String → ℕ → String

  -- `EngineResult`, its time left out.
  pub record EngineResult : Type 0 where
    pub available : Bool
    pub sql : Option String
    pub columns : List String
    pub rows : List (List (Option V))
    pub row_count : ℕ
    pub error : Option String
    pub figures : EngineFigures

  unfoldable pub not_available : String → EngineResult
  not_available e = record {
    available = false;
    sql = none;
    columns = [];
    rows = [];
    row_count = 0;
    error = some e;
    figures = no_engine_figures;
  }

  -- `list(rows[0].keys()) if rows else []`
  unfoldable pub result_columns : List ResultRow → List String
  result_columns [] = []
  result_columns (r ∷ rs) = map (λ (c : String × V). c.0) r

  -- `[r.get(c) for c in columns]`
  unfoldable pub result_cells : List String → ResultRow → List (Option V)
  unfolding lookup
  result_cells columns r = map (λ (c : String). lookup c r) columns

  unfoldable pub result_table : List String → List ResultRow → List (List (Option V))
  unfolding result_cells
  result_table columns rs = map (result_cells columns) rs

  unfoldable pub result_of : String → EngineFigures → EngineRows → EngineResult
  unfolding result_columns result_table
  result_of statement figures (failed e) = record {
    available = true;
    sql = some statement;
    columns = [];
    rows = [];
    row_count = 0;
    error = some e;
    figures = figures;
  }
  result_of statement figures (rows rs) = record {
    available = true;
    sql = some statement;
    columns = result_columns rs;
    rows = result_table (result_columns rs) rs;
    row_count = length rs;
    error = none;
    figures = figures;
  }

  -- `_run` once the client is connected.
  unfoldable pub run_connected : Engine → String → ℕ → Bool → EngineResult
  unfolding result_of reported_figures
  run_connected e sql limit reuse_snapshot =
      let statement = e.dialect sql limit in
      result_of statement (reported_figures e.attributes)
        (e.execute_query statement (reuse_snapshot && e.supports_snapshot_reuse))

  unfoldable pub after_connect : Engine → Option String → Bool → String → ℕ → Bool → EngineResult
  unfolding run_connected not_available
  after_connect e (some text) connects sql limit reuse = not_available text
  after_connect e none false sql limit reuse = not_available "Engine not connected"
  after_connect e none true sql limit reuse = run_connected e sql limit reuse

  -- `_run`
  unfoldable pub run_engine : Engine → String → ℕ → Bool → EngineResult
  unfolding run_connected after_connect
  run_engine e sql limit reuse =
      if e.connected
      then run_connected e sql limit reuse
      else after_connect e e.connect_error e.connects sql limit reuse

-- ===== src/Fdw/Base.antt =====
-- src/fdw/base.rs: the trait `BaseFdw`, the scan that the six wrappers share.
pub mod Drain
pub mod Begin
use pg_analytics.Prelude.{
  ℕ, suc, ◌+◌, Bool, true, false, Option, none, some, List, [], ◌∷◌, ◌++◌, leb, if◌then◌else◌,
}
use pg_analytics.Text.{Text, str}
use pg_analytics.Result.{Result, ok, err, error, ok_or, ◌>>=◌ as bind_result}
use pg_analytics.Exec.{Exec, pure, lift, gets, modify, zoom, ◌>>=◌, ◌>>◌}
use pg_analytics.Options.{OptionMap}
use pg_analytics.Duckdb.Engine.{Engine}
use pg_analytics.Duckdb.Connection.{Globals, create_arrow, get_next_batch, clear_arrow}

-- `Column` of supabase-wrappers, as far as the scan reads it.
pub record Column : Type 0 where
  pub name : Text
  pub type_oid : ℕ

-- `Limit` of supabase-wrappers; both are `i64` and not negative.
pub record Limit : Type 0 where
  pub count : ℕ
  pub offset : ℕ

-- Reading a cell of an Arrow array, `GetCell::get_cell` of src/schema/cell.rs, is a parameter of
-- the scan: the array, the row, the type's oid and the column's name.
abbrev pub GetCell : Engine → Type 0 → Type 0
GetCell e Cell = e.Array → ℕ → ℕ → Text → Result (Option Cell)

module _ (e : Engine) (Cell : Type 0) where
  open e use {Batch, num_rows, column}

  -- The fields of `CsvFdw` and of the other wrappers.
  pub record Fdw : Type 0 where
    pub current_batch : Option Batch
    pub current_batch_index : ℕ
    pub scan_started : Bool
    pub sql : Option Text
    pub target_columns : List Column
    pub user_mapping_options : OptionMap

  -- `ForeignDataWrapper::new`
  unfoldable pub new : OptionMap → Fdw
  new options = record {
    current_batch = none;
    current_batch_index = 0;
    scan_started = false;
    sql = none;
    target_columns = [];
    user_mapping_options = options;
  }

  -- A row under construction: the name and the cell of each column that was pushed.
  abbrev pub Row : Type 0
  Row = List (Text × Option Cell)

  -- What a scan works on: the global connection, the wrapper, and the row that it fills.
  pub record Scan : Type 0 where
    pub globals : Globals e
    pub fdw : Fdw
    pub row : Row

  abbrev pub on_globals : {A : Type 0} → Exec (Globals e) A → Exec Scan A
  on_globals = zoom (λ s. s.globals) (λ g s. record s { globals = g })

  abbrev pub on_fdw : (Fdw → Fdw) → Exec Scan Unit
  on_fdw f = modify (λ s. record s { fdw = f s.fdw })

  -- `if !self.get_scan_started() { … }`
  abbrev pub start : Bool → Exec Scan Unit
  start true = pure tt
  start false = do
    on_fdw (λ f. record f { scan_started = true })
    cached ← gets (λ s. s.fdw.sql)
    sql ← lift (ok_or cached (error (str "sql statement was not cached")))
    on_globals (create_arrow e sql)
    pure tt

  -- There is no current batch, or its rows are used up.
  abbrev pub used_up : Option Batch → ℕ → Bool
  used_up none index = true
  used_up (some batch) index = leb (num_rows batch) index

  -- Whether there is a next batch, which becomes the current one.
  abbrev keep_batch : Option Batch → Exec Scan Bool
  keep_batch none = pure false
  keep_batch (some batch) = on_fdw (λ f. record f { current_batch = some batch }) >> pure true

  abbrev pub advance : Bool → Exec Scan Bool
  advance false = pure true
  advance true = do
    on_fdw (λ f. record f { current_batch_index = 0 })
    next ← on_globals (get_next_batch e)
    keep_batch next

  module _ (get_cell : GetCell e Cell) where
    -- The loop over the target columns, from a column index on.
    unfoldable pub push_cells : Batch → ℕ → ℕ → List Column → Exec Scan Unit
    push_cells batch index column_index [] = pure tt
    push_cells batch index column_index (target ∷ targets) =
        let rest = push_cells batch index (suc column_index) targets in
        do
          array ← lift (column batch column_index)
          cell ← lift (get_cell array index target.type_oid target.name)
          modify (λ s. record s { row = s.row ++ (target.name, cell) ∷ [] })
          rest

    abbrev pub read_row : Exec Scan (Option Unit)
    read_row = do
      current ← gets (λ s. s.fdw.current_batch)
      batch ← lift (ok_or current (error (str "current batch not found")))
      index ← gets (λ s. s.fdw.current_batch_index)
      targets ← gets (λ s. s.fdw.target_columns)
      push_cells batch index 0 targets
      on_fdw (λ f. record f { current_batch_index = index + 1 })
      pure (some tt)

    unfoldable pub iter_scan : Exec Scan (Option Unit)
    iter_scan = do
      started ← gets (λ s. s.fdw.scan_started)
      start started
      done ← gets (λ s. used_up s.fdw.current_batch s.fdw.current_batch_index)
      more ← advance done
      if more then read_row else pure none

  unfoldable pub end_scan : Exec Scan Unit
  unfolding clear_arrow
  end_scan = on_globals (clear_arrow e)

  unfoldable pub explain : Fdw → Result (List (Text × Text))
  explain fdw =
      bind_result (ok_or fdw.sql (error (str "sql statement was not cached")))
        λ sql. ok ((str "DuckDB Scan", sql) ∷ [])

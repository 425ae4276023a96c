-- ===== src/Duckdb/Connection.antt =====
-- src/duckdb/connection.rs: the global connection, the global statement and Arrow stream, and the
-- functions that work on them. The signal thread, which only interrupts queries, is left out.
use pg_analytics.Prelude.{
  ℕ, zero, suc, Bool, true, false, Option, none, some, List, [], ◌∷◌, map, if◌then◌else◌,
}
use pg_analytics.Text.{Text, str, concat, join}
use pg_analytics.Result.{Failure, Result, ok, err, error, panic, ◌>>=◌ as bind_result}
use pg_analytics.Exec.{Exec, pure, fail, lift, gets, modify, match_result, ◌>>=◌, ◌>>◌}
use pg_analytics.Options.{OptionMap}
use pg_analytics.Duckdb.Engine.{Engine}
use pg_analytics.Duckdb.Csv
use pg_analytics.Duckdb.Json
use pg_analytics.Duckdb.Parquet
use pg_analytics.Duckdb.Delta
use pg_analytics.Duckdb.Iceberg
use pg_analytics.Duckdb.Spatial
use pg_analytics.Duckdb.Secret

abbrev Row : Type 0
Row = List (Option Text)

-- `row.get::<_, String>(i)`: an error for NULL and for a column that is not there.
unfoldable pub get_text : Row → ℕ → Result Text
get_text [] i = err (error (str "invalid column index"))
get_text (none ∷ row) zero = err (error (str "invalid column type"))
get_text (some t ∷ row) zero = ok t
get_text (c ∷ row) (suc i) = get_text row i

-- `Ok(Some(_)) => true, _ => false` on the first row of a result.
unfoldable pub has_first_row : List (Result Row) → Bool
has_first_row (ok row ∷ rows) = true
has_first_row _ = false

-- `.map(|row| row.unwrap())` over rows, `collect`ed.
unfoldable pub unwrap_all : {A : Type 0} → List (Result A) → Result (List A)
unwrap_all [] = ok []
unwrap_all (ok a ∷ rest) = bind_result (unwrap_all rest) (λ done. ok (a ∷ done))
unwrap_all (err f ∷ rest) = err (panic (str "called `Result::unwrap()` on an `Err` value"))

-- `while let Ok(value) = row.get(col_index)`, from a column on.
unfoldable pub leading_texts : Row → List Text
leading_texts (some t ∷ row) = t ∷ leading_texts row
leading_texts _ = []

module _ (e : Engine) where
  open e use {Db, Stmt, Batch}

  -- GLOBAL_CONNECTION, GLOBAL_STATEMENT and GLOBAL_ARROW, once they are initialised.
  pub record Globals : Type 0 where
    pub db : Db
    pub statement : Option Stmt
    pub arrow : Option (List Batch)

  -- An effect on the database behind the connection.
  abbrev pub on_db : {A : Type 0} → (Db → Result A × Db) → Exec Globals A
  on_db f g = let (r, db') = f g.db in (r, record g { db = db' })

  unfoldable pub prepare : Text → Exec Globals Stmt
  prepare sql g = (e.prepare sql g.db, g)

  unfoldable pub query : Stmt → Exec Globals (List (Result Row))
  query stmt g = (e.query stmt g.db, g)

  unfoldable pub execute : Text → Exec Globals ℕ
  execute sql = on_db (e.execute sql)

  unfoldable pub set_duckdb_extension_directory : Result Text → Exec Globals ℕ
  unfolding execute
  set_duckdb_extension_directory data_dir = do
    dir ← lift data_dir
    execute (concat (str "SET extension_directory = '" ∷ dir ∷ str "'" ∷ []))

  -- `expect`
  abbrev expect : {A : Type 0} → Text → Exec Globals A → Exec Globals A
  expect message m = match_result m (λ f. fail (panic message)) pure

  -- The steps on the connection that was opened; a failure of a step is a panic.
  abbrev set_up : Result Text → Exec Globals Globals
  set_up data_dir = do
    expect (str "failed to set duckdb extension directory")
        (set_duckdb_extension_directory data_dir)
    expect (str "failed to install httpfs") (execute (str "INSTALL httpfs"))
    expect (str "failed to load httpfs") (execute (str "LOAD httpfs"))
    gets (λ g. g)

  abbrev opened : Result Db → Result Text → Result Globals
  opened (err f) data_dir = err (panic (str "failed to open duckdb connection"))
  opened (ok conn) data_dir =
      (set_up data_dir (record { db = conn; statement = none; arrow = none })).0

  unfoldable pub init_globals : Result Text → Result Globals
  unfolding set_duckdb_extension_directory execute
  init_globals data_dir = opened e.open_in_memory data_dir

  unfoldable pub check_extension_loaded : Text → Exec Globals Bool
  unfolding prepare query has_first_row
  check_extension_loaded extension_name = do
    statement ← prepare (
        concat (
          str "SELECT * FROM duckdb_extensions() WHERE extension_name = '"
          ∷ extension_name
          ∷ str "' AND installed = true AND loaded = true"
          ∷ []))
    rows ← query statement
    pure (has_first_row rows)

  unfoldable pub view_exists : Text → Text → Exec Globals Bool
  unfolding prepare query has_first_row
  view_exists table_name schema_name = do
    statement ← prepare (
        concat (
          str "SELECT * from information_schema.tables WHERE table_schema = '"
          ∷ schema_name
          ∷ str "' AND table_name = '"
          ∷ table_name
          ∷ str "' AND table_type = 'VIEW'"
          ∷ []))
    rows ← query statement
    pure (has_first_row rows)

  -- Runs a statement that was built, unless building it failed.
  abbrev execute_built : Result Text → Exec Globals ℕ
  execute_built built = do statement ← lift built; execute statement

  abbrev load : Text → Exec Globals Unit
  load name = do
    execute (concat (str "INSTALL " ∷ name ∷ []))
    execute (concat (str "LOAD " ∷ name ∷ []))
    pure tt

  -- `if !check_extension_loaded(name)? { INSTALL; LOAD }`
  unfoldable pub install : Text → Exec Globals Unit
  unfolding check_extension_loaded execute
  install name = do loaded ← check_extension_loaded name; if loaded then pure tt else load name

  unfoldable pub create_csv_view : Text → Text → OptionMap → Exec Globals ℕ
  unfolding execute
  create_csv_view table_name schema_name table_options =
      execute_built (Csv.create_view table_name schema_name table_options)

  unfoldable pub create_delta_view : Text → Text → OptionMap → Exec Globals ℕ
  unfolding execute
  create_delta_view table_name schema_name table_options =
      execute_built (Delta.create_view table_name schema_name table_options)

  unfoldable pub create_parquet_view : Text → Text → OptionMap → Exec Globals ℕ
  unfolding execute
  create_parquet_view table_name schema_name table_options =
      execute_built (Parquet.create_view table_name schema_name table_options)

  unfoldable pub create_json_view : Text → Text → OptionMap → Exec Globals ℕ
  unfolding execute
  create_json_view table_name schema_name table_options =
      execute_built (Json.create_view table_name schema_name table_options)

  unfoldable pub create_iceberg_view : Text → Text → OptionMap → Exec Globals ℕ
  unfolding execute install
  create_iceberg_view table_name schema_name table_options = do
    install (str "iceberg")
    execute_built (Iceberg.create_view table_name schema_name table_options)

  unfoldable pub create_spatial_view : Text → Text → OptionMap → Exec Globals ℕ
  unfolding execute install
  create_spatial_view table_name schema_name table_options = do
    install (str "spatial")
    execute_built (Spatial.create_view table_name schema_name table_options)

  unfoldable pub create_secret : Text → OptionMap → Exec Globals ℕ
  unfolding execute
  create_secret secret_name user_mapping_options =
      execute_built (Secret.create_secret secret_name user_mapping_options)

  -- Prepares, keeps the statement, and starts its stream of batches.
  unfoldable pub create_arrow : Text → Exec Globals Bool
  unfolding prepare
  create_arrow sql = do
    stmt ← prepare sql
    modify (λ g. record g { statement = some stmt })
    batches ← on_db (e.query_arrow stmt)
    modify (λ g. record g { arrow = some batches })
    pure true

  unfoldable pub clear_arrow : Exec Globals Unit
  clear_arrow = modify (λ g. record g { statement = none; arrow = none })

  abbrev no_arrow : Failure
  no_arrow = error (str "No Arrow batches found in GLOBAL_ARROW")

  -- `arrow.next()` on the stream that is left.
  abbrev next_of : Option (List Batch) → Exec Globals (Option Batch)
  next_of none g = (err no_arrow, g)
  next_of (some []) g = (ok none, g)
  next_of (some (batch ∷ batches)) g = (ok (some batch), record g { arrow = some batches })

  unfoldable pub get_next_batch : Exec Globals (Option Batch)
  get_next_batch g = next_of g.arrow g

  -- `arrow.collect()`
  abbrev rest_of : Option (List Batch) → Exec Globals (List Batch)
  rest_of none g = (err no_arrow, g)
  rest_of (some batches) g = (ok batches, record g { arrow = some [] })

  unfoldable pub get_batches : Exec Globals (List Batch)
  get_batches g = rest_of g.arrow g

  unfoldable pub get_available_schemas : Exec Globals (List Text)
  unfolding prepare query unwrap_all get_text
  get_available_schemas = do
    statement ← prepare (str "select DISTINCT(nspname) from pg_namespace;")
    rows ← query statement
    lift (unwrap_all (map (λ row. bind_result row (λ columns. get_text columns 0)) rows))

  unfoldable pub set_search_path : List Text → Exec Globals Unit
  unfolding execute
  set_search_path search_path = do
    execute (concat (str "SET search_path TO '" ∷ join (str ",") search_path ∷ str "'" ∷ []))
    pure tt

  -- `query_row`: the first row, an error if there is none.
  abbrev first_row : List (Result Row) → Result Row
  first_row [] = err (error (str "Query returned no rows"))
  first_row (row ∷ rows) = row

  abbrev behind_first : Row → Row
  behind_first [] = []
  behind_first (c ∷ row) = row

  -- The columns from the second on, as long as they are texts.
  unfoldable pub execute_explain : Text → Exec Globals Text
  unfolding prepare query leading_texts
  execute_explain sql = do
    statement ← prepare sql
    rows ← query statement
    row ← lift (first_row rows)
    pure (join [] (leading_texts (behind_first row)))

-- ===== src/Fdw/Register.antt =====
-- src/fdw/base.rs: `register_duckdb_view`.
pub mod Plan
use pg_analytics.Prelude.{ℕ, Bool, true, false, not, if◌then◌else◌, [], ◌∷◌}
use pg_analytics.Text.{Text, str, concat}
use pg_analytics.Result.{error}
use pg_analytics.Exec.{Exec, pure, fail, ◌>>=◌, ◌>>◌}
use pg_analytics.Options.{OptionMap, is_empty}
use pg_analytics.Duckdb.Engine.{Engine}
use pg_analytics.Duckdb.Connection.{
  Globals, execute, view_exists, create_secret, create_csv_view, create_delta_view,
  create_iceberg_view, create_parquet_view, create_spatial_view, create_json_view,
}
use pg_analytics.Fdw.Handler.{FdwHandler, csv, json, parquet, delta, iceberg, spatial, other}

abbrev pub default_secret : Text
default_secret = str "default_secret"

module _ (e : Engine) where
  -- The `match` on the handler.
  unfoldable pub create_view_by : FdwHandler → Text → Text → OptionMap → Exec (Globals e) ℕ
  create_view_by csv t s options = create_csv_view e t s options
  create_view_by delta t s options = create_delta_view e t s options
  create_view_by iceberg t s options = create_iceberg_view e t s options
  create_view_by parquet t s options = create_parquet_view e t s options
  create_view_by spatial t s options = create_spatial_view e t s options
  create_view_by json t s options = create_json_view e t s options
  create_view_by other t s options = fail (error (str "got unexpected fdw_handler"))

  abbrev pub schema_statement : Text → Text
  schema_statement schema_name = concat (str "CREATE SCHEMA IF NOT EXISTS " ∷ schema_name ∷ [])

  -- The secret, if there are user mapping options.
  abbrev register_secret : OptionMap → Exec (Globals e) Unit
  register_secret options =
      if is_empty options then pure tt else (create_secret e default_secret options >> pure tt)

  -- The branch for a view that does not exist.
  abbrev initialize_view : Text → Text → OptionMap → FdwHandler → Exec (Globals e) Unit
  initialize_view table_name schema_name table_options handler = do
    execute e (schema_statement schema_name)
    create_view_by handler table_name schema_name table_options
    pure tt

  unfoldable pub register_duckdb_view :
      Text → Text → OptionMap → OptionMap → FdwHandler → Exec (Globals e) Unit
  unfolding create_view_by
  register_duckdb_view table_name schema_name table_options user_mapping_options handler = do
    register_secret user_mapping_options
    exists ← view_exists e table_name schema_name
    if exists then pure tt else initialize_view table_name schema_name table_options handler

-- ===== src/Fdw/Trigger.antt =====
-- src/fdw/trigger.rs: the event trigger that gives a new foreign table its view and its columns.
pub mod Kinds
pub mod Arrays
pub mod Columns
use pg_analytics.Prelude.{
  ℕ, Bool, true, false, not, ◌||◌, Option, none, some, List, [], ◌∷◌, any, map, if◌then◌else◌, ◌==◌,
}
use mathlib.Core.List.{foldl}
use pg_analytics.Text.{Text, str, concat, join, same, starts_with, replace, eq_ignore_ascii_case}
use pg_analytics.Result.{Failure, Result, ok, err, error, panic, ◌>>=◌ as bind_result}
use pg_analytics.Exec.{Exec, pure, fail, lift, modify, zoom, ◌>>=◌, ◌>>◌}
use pg_analytics.Options.{OptionMap, get}
use pg_analytics.Duckdb.Engine.{Engine}
use pg_analytics.Duckdb.Connection.{Globals, prepare, query, execute, get_text, unwrap_all}
use pg_analytics.Fdw.Handler.{FdwHandler, is_other}
use pg_analytics.Fdw.Register.{register_duckdb_view}
use pg_analytics.Fdw.Validate.{contains}

-- DUCKDB_RESERVED_NAMES
unfoldable pub duckdb_reserved_names : List Text
duckdb_reserved_names =
    str "duckdb_columns"
    ∷ str "duckdb_constraints"
    ∷ str "duckdb_databases"
    ∷ str "duckdb_dependencies"
    ∷ str "duckdb_extensions"
    ∷ str "duckdb_functions"
    ∷ str "duckdb_indexes"
    ∷ str "duckdb_keywords"
    ∷ str "duckdb_optimizers"
    ∷ str "duckdb_schemas"
    ∷ str "duckdb_sequences"
    ∷ str "duckdb_settings"
    ∷ str "duckdb_tables"
    ∷ str "duckdb_types"
    ∷ str "duckdb_views"
    ∷ str "duckdb_temporary_files"
    ∷ []

-- The calls of `replace`, pattern and replacement, in the order in which they are chained.
unfoldable pub replacements : List (Text × Text)
replacements =
    (str "TINYINT", str "SMALLINT")
    ∷ (str "UTINYINT", str "SMALLINT")
    ∷ (str "USMALLINT", str "INTEGER")
    ∷ (str "UINTEGER", str "BIGINT")
    ∷ (str "UBIGINT", str "NUMERIC")
    ∷ (str "HUGEINT", str "NUMERIC")
    ∷ (str "UHUGEINT", str "NUMERIC")
    ∷ (str "BLOB", str "TEXT")
    ∷ (str "DOUBLE", str "DOUBLE PRECISION")
    ∷ (str "TIMESTAMP_S", str "TIMESTAMP")
    ∷ (str "TIMESTAMP_MS", str "TIMESTAMP")
    ∷ (str "TIMESTAMP_NS", str "TIMESTAMP")
    ∷ (str "TIME WITH TIME ZONE", str "TIME")
    ∷ (str "GEOMETRY", str "TEXT")
    ∷ (str "WKB_BLOB", str "TEXT")
    ∷ (str "POINT_2D", str "POINT")
    ∷ (str "POINT_3D", str "POINT")
    ∷ (str "POINT_4D", str "POINT")
    ∷ (str "BOX_2D", str "BOX")
    ∷ (str "POLYGON_2D", str "POLYGON")
    ∷ (str "LINESTRING_2D", str "LINE")
    ∷ []

-- A chain of calls of `replace`.
unfoldable pub replace_all : List (Text × Text) → Text → Text
replace_all [] s = s
replace_all ((pat, by) ∷ rest) s = replace_all rest (replace pat by s)

unfoldable pub postgres_type : Text → Text
unfolding replace_all replacements
postgres_type duckdb_type = replace_all replacements duckdb_type

abbrev unsupported : Text → Text → Result Text
unsupported column_name kind = err (
    error (
      concat (
        str "Column '"
        ∷ column_name
        ∷ str "' has type "
        ∷ kind
        ∷ str ", which is not supported"
        ∷ [])))

unfoldable pub duckdb_type_to_pg : Text → Text → Result Text
unfolding postgres_type
duckdb_type_to_pg column_name duckdb_type =
    if same duckdb_type (str "INVALID")
    then err
        (error (concat (str "Column '" ∷ column_name ∷ str "' has an invalid DuckDB type" ∷ [])))
    else if starts_with (str "MAP") duckdb_type
    then unsupported column_name (str "MAP")
    else if starts_with (str "ENUM") duckdb_type
    then unsupported column_name (str "ENUM")
    else if starts_with (str "UNION") duckdb_type
    then unsupported column_name (str "UNION")
    else if starts_with (str "BIT") duckdb_type
    then unsupported column_name (str "BIT")
    else if starts_with (str "STRUCT") (postgres_type duckdb_type)
    then ok (str "JSONB")
    else ok (postgres_type duckdb_type)

module _ (quote_identifier : Text → Text) where
  -- `expect` makes a type that is not supported a panic.
  abbrev column_definition : Bool → Text × Text → Result Text
  column_definition preserve_casing (column_name, duckdb_type) =
      elim (duckdb_type_to_pg column_name duckdb_type) [
        | err f ↦ err (panic (str "failed to convert DuckDB type"))
        | ok pg_type ↦ ok (
            concat (
              str "ADD COLUMN "
              ∷ (if preserve_casing then quote_identifier column_name else column_name)
              ∷ str " "
              ∷ pg_type
              ∷ []))
      ]

  unfoldable pub column_definitions : Bool → List (Text × Text) → Result (List Text)
  column_definitions preserve_casing [] = ok []
  column_definitions preserve_casing (column ∷ columns) =
      let rest = column_definitions preserve_casing columns in
      bind_result (column_definition preserve_casing column)
        λ definition. bind_result rest λ definitions. ok (definition ∷ definitions)

  unfoldable pub construct_alter_table_statement :
      Text → Text → List (Text × Text) → Bool → Result Text
  unfolding column_definitions
  construct_alter_table_statement schema_name table_name columns preserve_casing =
      bind_result (column_definitions preserve_casing columns) λ definitions. ok (
        concat (
          str "ALTER TABLE "
          ∷ quote_identifier schema_name
          ∷ str "."
          ∷ quote_identifier table_name
          ∷ str " "
          ∷ join (str ", ") definitions
          ∷ []))

-- What the trigger reads of PostgreSQL about the command and its new table.
pub record Creation : Type 0 where
  -- The call comes from the event trigger, for CREATE FOREIGN TABLE.
  pub is_event_trigger : Bool
  pub is_create_foreign_table : Bool
  pub schema_name : Result Text
  pub table_name : Result Text
  pub handler : FdwHandler
  pub user_mapping_options : OptionMap
  pub table_options : Result OptionMap
  -- `natts` of the relation
  pub columns : ℕ

module _ (e : Engine) where
  -- The session, and the statements that `Spi::run` was given.
  pub record Trigger : Type 0 where
    pub globals : Globals e
    pub spi : List Text

  abbrev pub on_globals : {A : Type 0} → Exec (Globals e) A → Exec Trigger A
  on_globals = zoom (λ t. t.globals) (λ g t. record t { globals = g })

  -- `eq_ignore_ascii_case("true")` on the option, if it is given.
  unfoldable pub is_true : Option Text → Bool
  unfolding eq_ignore_ascii_case
  is_true none = false
  is_true (some s) = eq_ignore_ascii_case s (str "true")

  -- The name and the type that a row of `DESCRIBE` gives.
  unfoldable pub described : List (Option Text) → Result (Text × Text)
  unfolding get_text
  described row =
      bind_result (get_text row 0) λ name. bind_result (get_text row 1) λ kind. ok (name, kind)

  module _ (quote_identifier : Text → Text) (spi_run : Text → Result (Unit {0})) where
    abbrev alter : Text → Text → List (Text × Text) → OptionMap → Exec Trigger (Unit {0})
    alter schema_name table_name [] table_options = pure tt
    alter schema_name table_name (row ∷ rows) table_options = do
      let preserve_casing = is_true (get table_options (str "preserve_casing"))
      statement ← lift (
          construct_alter_table_statement quote_identifier schema_name table_name (row ∷ rows)
            preserve_casing)
      modify (λ t. record t { spi = statement ∷ t.spi })
      lift (spi_run statement)

    -- The DuckDB schema of the view, and the statement for its columns.
    abbrev add_columns : Text → Text → OptionMap → Exec Trigger (Unit {0})
    add_columns schema_name table_name table_options = do
      statement ←
          on_globals
            (prepare e (concat (str "DESCRIBE " ∷ schema_name ∷ str "." ∷ table_name ∷ [])))
      rows ← on_globals (query e statement)
      schema_rows ← lift (unwrap_all (map (λ row. bind_result row described) rows))
      alter schema_name table_name schema_rows table_options

    -- The steps for a table of this extension whose name is allowed.
    abbrev create_and_describe : Text → Text → Creation → Exec Trigger (Unit {0})
    create_and_describe schema_name table_name c = do
      on_globals (
          execute e (concat (str "DROP VIEW IF EXISTS " ∷ schema_name ∷ str "." ∷ table_name ∷ [])))
      table_options ← lift c.table_options
      on_globals (
          register_duckdb_view e table_name schema_name table_options c.user_mapping_options
            c.handler)
      if not (c.columns == 0) then pure tt else add_columns schema_name table_name table_options

    abbrev reserved : Text → Exec Trigger (Unit {0})
    reserved table_name = fail (
        error (
          concat (
            str "Table name '"
            ∷ table_name
            ∷ str "' is not allowed because it is reserved by DuckDB"
            ∷ [])))

    -- What follows once the names are read.
    abbrev for_table : Text → Text → Creation → Exec Trigger (Unit {0})
    for_table schema_name table_name c =
        if is_other c.handler
        then pure tt
        else if contains duckdb_reserved_names table_name
        then reserved table_name
        else create_and_describe schema_name table_name c

    abbrev for_command : Creation → Exec Trigger (Unit {0})
    for_command c = do
      schema_name ← lift c.schema_name
      table_name ← lift c.table_name
      for_table schema_name table_name c

    unfoldable pub auto_create_schema : Creation → Exec Trigger (Unit {0})
    unfolding contains
    auto_create_schema c =
        if not c.is_event_trigger || not c.is_create_foreign_table then pure tt else for_command c

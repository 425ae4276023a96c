-- ===== src/Tests/Columns.antt =====
-- src/fdw/trigger.rs: a new table that gets its columns from DuckDB.
use pg_analytics.Prelude.{true, false, none, some, List, [], ◌∷◌, ◌≡◌, refl}
use pg_analytics.Text.{Text, str, concat, same}
use pg_analytics.Result.{Result, ok}
use pg_analytics.Options.{OptionMap}
use pg_analytics.Duckdb.Engine.{Engine}
use pg_analytics.Duckdb.Connection.{Globals, execute, prepare, query, view_exists}
use pg_analytics.Fdw.Handler.{parquet, is_other}
use pg_analytics.Fdw.Register.{register_duckdb_view}
use pg_analytics.Fdw.Validate.{contains}
use pg_analytics.Fdw.Trigger.{
  Creation, Trigger, duckdb_reserved_names, duckdb_type_to_pg, is_true, auto_create_schema,
}
use pg_analytics.Fdw.Trigger.Columns.{
  Converted, alter_table, additions, auto_create_schema-additions,
}
use pg_analytics.Tests.Toy.{toy}

-- An engine in which the view of the table exists, with two columns.
abbrev describing : Engine
describing = record toy {
  query = λ stmt db. ok (
      ok (some (str "id") ∷ some (str "UBIGINT") ∷ [])
      ∷ ok (some (str "Tags") ∷ some (str "VARCHAR[]") ∷ [])
      ∷ []);
}

abbrev quote_identifier : Text → Text
quote_identifier s = concat (str "\"" ∷ s ∷ str "\"" ∷ [])

abbrev spi_run : Text → Result (Unit {0})
spi_run s = ok tt

abbrev table_options : OptionMap
table_options = (str "preserve_casing", str "True") ∷ []

abbrev tagged : Creation
tagged = record {
  is_event_trigger = true;
  is_create_foreign_table = true;
  schema_name = ok (str "public");
  table_name = ok (str "tagged");
  handler = parquet;
  user_mapping_options = [];
  table_options = ok table_options;
  columns = 0;
}

abbrev before : Trigger describing
before = record { globals = record { db = []; statement = none; arrow = none }; spi = [] }

abbrev dropped : Globals describing
dropped = record {
  db = concat (str "DROP VIEW IF EXISTS " ∷ str "public" ∷ str "." ∷ str "tagged" ∷ []) ∷ [];
  statement = none;
  arrow = none;
}

abbrev columns : List (Text × Text)
columns = (str "id", str "UBIGINT") ∷ (str "Tags", str "VARCHAR[]") ∷ []

abbrev types : List Text
types = str "NUMERIC" ∷ str "VARCHAR[]" ∷ []

abbrev sql : Text
sql =
    alter_table quote_identifier (str "public") (str "tagged")
      (additions quote_identifier true columns types)

sql_text :
    sql
    ≡ str
        "ALTER TABLE \"public\".\"tagged\" ADD COLUMN \"id\" NUMERIC, ADD COLUMN \"Tags\" VARCHAR[]"
unfolding str concat pg_analytics.Text.join
sql_text = refl

allowed : contains duckdb_reserved_names (str "tagged") ≡ false
unfolding contains duckdb_reserved_names str same
allowed = refl

convert : Converted columns types
unfolding duckdb_type_to_pg str same pg_analytics.Text.starts_with pg_analytics.Text.replace
convert = (refl, (refl, tt))

there :
    register_duckdb_view describing (str "tagged") (str "public") table_options [] parquet dropped
    ≡ (ok tt, dropped)
unfolding register_duckdb_view view_exists pg_analytics.Options.is_empty
there = refl

auto_create_schema-additions_example :
    auto_create_schema describing quote_identifier spi_run tagged before
    ≡ (ok tt, record { globals = dropped; spi = sql ∷ [] })
unfolding is_other execute prepare query is_true str same concat pg_analytics.Options.get
auto_create_schema-additions_example =
    auto_create_schema-additions quote_identifier describing spi_run tagged before (str "public")
      (str "tagged") table_options 0 dropped dropped
      (concat (str "DESCRIBE " ∷ str "public" ∷ str "." ∷ str "tagged" ∷ []))
      (str "id", str "UBIGINT") ((str "Tags", str "VARCHAR[]") ∷ []) types refl refl refl refl refl
      allowed refl refl refl there refl refl convert

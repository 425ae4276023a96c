-- ===== src/Tests/Functions.antt =====
-- The SQL functions on a DuckDB that gives one row for every statement.
use pg_analytics.Prelude.{none, some, List, [], ◌∷◌, ◌≡◌, refl}
use pg_analytics.Text.{Text, str, concat}
use pg_analytics.Result.{ok}
use pg_analytics.Options.{OptionMap}
use pg_analytics.Duckdb.Connection.{Globals}
use pg_analytics.Schema.Integers.{pos}
use pg_analytics.Fdw.Handler.{parquet}
use pg_analytics.Fdw.Base.Begin.{ForeignTable}
use pg_analytics.Api.Rows.{RowReader}
use pg_analytics.Api.Csv.{schema_str}
use pg_analytics.Api.Parquet.{ParquetSchemaRow, parquet_schema}
use pg_analytics.Api.Functions.{Answered, parquet_schema-eq-ok}
use pg_analytics.Tests.Toy.{toy}

-- A row is the statement that it answers.
abbrev toy_rows : RowReader toy
toy_rows = record {
  Row = Text;
  rows = λ stmt db. ok (ok stmt ∷ []);
  get_string = λ row i. ok (some row);
  get_i32 = λ row i. ok none;
  get_i64 = λ row i. ok (some (pos i));
  get_bool = λ row i. ok none;
  get_value = λ row i. ok none;
}

abbrev file_options : OptionMap
file_options = (str "files", str "a, b") ∷ []

abbrev parquet_t : ForeignTable
parquet_t = record {
  namespace = str "main";
  name = str "t";
  options = ok file_options;
  handler = parquet;
}

schema_str-two : schema_str (str "a.csv") (some (pos 7)) ≡ str "'a.csv', 7"
unfolding str schema_str pg_analytics.Text.split pg_analytics.Duckdb.Utils.quote concat
schema_str-two = refl

-- A session that has the view.
abbrev after : Globals toy
after = record { db = str "CREATE VIEW main.t" ∷ []; statement = none; arrow = none }

abbrev answer : Text
answer = str "SELECT * FROM parquet_schema(['a', 'b'])"

abbrev answer_rows : List ParquetSchemaRow
answer_rows =
    record {
      file_name = some answer;
      name = some answer;
      type_name = some answer;
      type_length = some answer;
      repetition_type = some answer;
      num_children = some (pos 5);
      converted_type = some answer;
      scale = some (pos 7);
      precision = some (pos 8);
      field_id = some (pos 9);
      logical_type = some answer;
    }
    ∷ []

parquet_schema_run : parquet_schema toy toy_rows parquet_t [] after ≡ (ok answer_rows, after)
unfolding parquet_schema pg_analytics.Fdw.Register.register_duckdb_view
    pg_analytics.Options.is_empty pg_analytics.Duckdb.Connection.view_exists
    pg_analytics.Options.get pg_analytics.Text.same str pg_analytics.Duckdb.Parquet.as_ref
    pg_analytics.Api.Parquet.parquet_schema_row concat pg_analytics.Duckdb.Utils.format_csv
    pg_analytics.Text.split pg_analytics.Text.join pg_analytics.Duckdb.Utils.quote
    pg_analytics.Text.trim pg_analytics.Text.is_whitespace
parquet_schema_run = refl

parquet_schema-eq-ok_example : Answered toy toy_rows parquet_t [] after after answer_rows
parquet_schema-eq-ok_example =
    parquet_schema-eq-ok toy toy_rows parquet_t [] after after answer_rows parquet_schema_run

-- ===== src/Api/Parquet.antt =====
-- src/api/parquet.rs
use pg_analytics.Prelude.{Bool, true, false, if◌then◌else◌, Option, List, [], ◌∷◌}
use pg_analytics.Text.{Text, str, concat}
use pg_analytics.Result.{Result, ok, panic, ok_or, ◌>>=◌ as bind_result}
use pg_analytics.Exec.{Exec, lift, pure, ◌>>=◌, ◌>>◌, fail, or_panic}
use pg_analytics.Schema.Integers.{ℤ}
use pg_analytics.Options.{OptionMap}
use pg_analytics.Duckdb.Engine.{Engine}
use pg_analytics.Duckdb.Connection.{Globals}
use pg_analytics.Api.Rows.{RowReader, query_map}
use pg_analytics.Options.{get}
use pg_analytics.Duckdb.Utils.{format_csv}
use pg_analytics.Duckdb.Parquet
use pg_analytics.Fdw.Handler.{FdwHandler, parquet}
use pg_analytics.Fdw.Register.{register_duckdb_view}
use pg_analytics.Fdw.Base.Begin.{ForeignTable}

pub record ParquetSchemaRow : Type 0 where
  pub file_name : Option Text
  pub name : Option Text
  pub type_name : Option Text
  pub type_length : Option Text
  pub repetition_type : Option Text
  pub num_children : Option ℤ
  pub converted_type : Option Text
  pub scale : Option ℤ
  pub precision : Option ℤ
  pub field_id : Option ℤ
  pub logical_type : Option Text

pub record ParquetDescribeRow : Type 0 where
  pub column_name : Option Text
  pub column_type : Option Text
  pub is_null : Option Text
  pub key : Option Text
  pub default : Option Text
  pub extra : Option Text

-- `FdwHandler::from(foreign_table) == FdwHandler::Parquet`
abbrev pub is_parquet : FdwHandler → Bool
is_parquet parquet = true
is_parquet handler = false

module _ (e : Engine) (r : RowReader e) where
  open r use {Row, get_string, get_i32, get_i64, get_bool, get_value}

  unfoldable pub parquet_schema_row : Row → Result ParquetSchemaRow
  parquet_schema_row row = bind_result (get_string row 0) λ file_name.
      bind_result (get_string row 1) λ name. bind_result (get_string row 2) λ type_name.
        bind_result (get_string row 3) λ type_length.
          bind_result (get_string row 4) λ repetition_type.
            bind_result (get_i64 row 5) λ num_children.
              bind_result (get_string row 6) λ converted_type. bind_result (get_i64 row 7) λ scale.
                bind_result (get_i64 row 8) λ precision. bind_result (get_i64 row 9) λ field_id.
                  bind_result (get_string row 10) λ logical_type. ok (record {
                    file_name = file_name;
                    name = name;
                    type_name = type_name;
                    type_length = type_length;
                    repetition_type = repetition_type;
                    num_children = num_children;
                    converted_type = converted_type;
                    scale = scale;
                    precision = precision;
                    field_id = field_id;
                    logical_type = logical_type;
                  })

  unfoldable pub parquet_describe_row : Row → Result ParquetDescribeRow
  parquet_describe_row row = bind_result (get_string row 0) λ column_name.
      bind_result (get_string row 1) λ column_type. bind_result (get_string row 2) λ is_null.
        bind_result (get_string row 3) λ key. bind_result (get_string row 4) λ default.
          bind_result (get_string row 5) λ extra. ok (record {
            column_name = column_name;
            column_type = column_type;
            is_null = is_null;
            key = key;
            default = default;
            extra = extra;
          })

  -- The files of the options of a table.
  abbrev pub files_of : OptionMap → Exec (Globals e) Text
  files_of table_options = do
    files ← lift (
        ok_or (get table_options (Parquet.as_ref Parquet.files))
          (panic (str "table should have files option")))
    pure (format_csv files)

  -- The view of a parquet table is registered; its files come back.
  abbrev pub registered_files : ForeignTable → OptionMap → OptionMap → Exec (Globals e) Text
  registered_files table user_mapping_options table_options = do
    register_duckdb_view e table.name table.namespace table_options user_mapping_options
        table.handler
    files_of table_options

  -- What the two functions do before their statement.
  unfoldable pub table_files : ForeignTable → OptionMap → Exec (Globals e) Text
  table_files table user_mapping_options =
      if is_parquet table.handler
      then (do
        table_options ← lift table.options
        registered_files table user_mapping_options table_options)
      else fail (panic (str "relation is not a parquet table"))

  unfoldable pub parquet_schema_impl :
      ForeignTable → OptionMap → Exec (Globals e) (List ParquetSchemaRow)
  unfolding table_files query_map
  parquet_schema_impl table user_mapping_options = do
    files ← table_files table user_mapping_options
    query_map e r parquet_schema_row
        (concat (str "SELECT * FROM parquet_schema(" ∷ files ∷ str ")" ∷ []))

  unfoldable pub parquet_describe_impl :
      ForeignTable → OptionMap → Exec (Globals e) (List ParquetDescribeRow)
  unfolding table_files query_map
  parquet_describe_impl table user_mapping_options = do
    files ← table_files table user_mapping_options
    query_map e r parquet_describe_row (concat (str "DESCRIBE SELECT * FROM " ∷ files ∷ []))

  unfoldable pub parquet_schema :
      ForeignTable → OptionMap → Exec (Globals e) (List ParquetSchemaRow)
  unfolding parquet_schema_impl
  parquet_schema table user_mapping_options =
      or_panic (parquet_schema_impl table user_mapping_options)

  unfoldable pub parquet_describe :
      ForeignTable → OptionMap → Exec (Globals e) (List ParquetDescribeRow)
  unfolding parquet_describe_impl
  parquet_describe table user_mapping_options =
      or_panic (parquet_describe_impl table user_mapping_options)

-- ===== src/Duckdb/Parquet.antt =====
-- src/duckdb/parquet.rs: the options and the statement that they become.
pub mod Arguments
use pg_analytics.Prelude.{Bool, true, false, Option, some, List, [], ◌∷◌, flatten}
use pg_analytics.Text.{Text, str, concat, join}
use pg_analytics.Result.{Result, ok, error, ok_or, ◌>>=◌}
use pg_analytics.Options.{OptionMap, OptionEnum, get}
use pg_analytics.Duckdb.Utils.{format_csv}
use mathlib.Core.Option

pub data ParquetOption : Type 0 where
  binary_as_string file_name file_row_number files hive_partitioning : ParquetOption
  hive_types hive_types_autocast preserve_casing union_by_name select : ParquetOption

-- `ParquetOption::iter()`, by `EnumIter`: the variants in their order.
unfoldable pub iter : List ParquetOption
iter =
    binary_as_string ∷ file_name ∷ file_row_number ∷ files ∷ hive_partitioning ∷ hive_types
    ∷ hive_types_autocast ∷ preserve_casing ∷ union_by_name ∷ select ∷ []

-- `as_ref`, by `AsRefStr` in snake case.
unfoldable pub as_ref : ParquetOption → Text
as_ref binary_as_string = str "binary_as_string"
as_ref file_name = str "file_name"
as_ref file_row_number = str "file_row_number"
as_ref files = str "files"
as_ref hive_partitioning = str "hive_partitioning"
as_ref hive_types = str "hive_types"
as_ref hive_types_autocast = str "hive_types_autocast"
as_ref preserve_casing = str "preserve_casing"
as_ref union_by_name = str "union_by_name"
as_ref select = str "select"

unfoldable pub is_required : ParquetOption → Bool
is_required binary_as_string = false
is_required file_name = false
is_required file_row_number = false
is_required files = true
is_required hive_partitioning = false
is_required hive_types = false
is_required hive_types_autocast = false
is_required preserve_casing = false
is_required union_by_name = false
is_required select = false

instance unfoldable pub parquet_options : OptionEnum ParquetOption
unfolding iter as_ref is_required
parquet_options = record { iter = iter; as_ref = as_ref; is_required = is_required }

-- The vector of the optional arguments, in the order in which the code lists them.
unfoldable pub arguments : OptionMap → Text → List (Option Text)
arguments table_options files_argument =
    some files_argument
    ∷ Option.map (λ option. concat (str "binary_as_string = " ∷ option ∷ []))
        (get table_options (as_ref binary_as_string))
    ∷ Option.map (λ option. concat (str "filename = " ∷ option ∷ []))
        (get table_options (as_ref file_name))
    ∷ Option.map (λ option. concat (str "file_row_number = " ∷ option ∷ []))
        (get table_options (as_ref file_row_number))
    ∷ Option.map (λ option. concat (str "hive_partitioning = " ∷ option ∷ []))
        (get table_options (as_ref hive_partitioning))
    ∷ Option.map (λ option. concat (str "hive_types = " ∷ option ∷ []))
        (get table_options (as_ref hive_types))
    ∷ Option.map (λ option. concat (str "hive_types_autocast = " ∷ option ∷ []))
        (get table_options (as_ref hive_types_autocast))
    ∷ Option.map (λ option. concat (str "union_by_name = " ∷ option ∷ []))
        (get table_options (as_ref union_by_name))
    ∷ []

unfoldable pub create_view : Text → Text → OptionMap → Result Text
unfolding arguments
create_view table_name schema_name table_options = do
  paths ← ok_or (get table_options (as_ref files)) (error (str "files option is required"))
  let reader_args = join (str ", ") (flatten (arguments table_options (format_csv paths)))
  let columns_read = Option.get_or (get table_options (as_ref select)) (str "*")
  ok (
      concat (
        str "CREATE VIEW IF NOT EXISTS "
        ∷ schema_name
        ∷ str "."
        ∷ table_name
        ∷ str " AS SELECT "
        ∷ columns_read
        ∷ str " FROM read_parquet("
        ∷ reader_args
        ∷ str ")"
        ∷ []))

-- ===== src/Duckdb/Json.antt =====
-- src/duckdb/json.rs: the options and the statement that they become.
pub mod Arguments
use pg_analytics.Prelude.{Bool, true, false, Option, some, List, [], ◌∷◌, flatten, if◌then◌else◌}
use pg_analytics.Text.{Text, str, concat, join}
use pg_analytics.Result.{Result, ok, error, ok_or, ◌>>=◌}
use pg_analytics.Options.{OptionMap, OptionEnum, get}
use pg_analytics.Duckdb.Utils.{format_csv}
use mathlib.Core.Option

pub data JsonOption : Type 0 where
  auto_detect columns compression convert_strings_to_integers dateformat : JsonOption
  filename files format hive_partitioning ignore_errors maximum_depth : JsonOption
  maximum_object_size records sample_size select timestampformat : JsonOption
  union_by_name : JsonOption

-- `JsonOption::iter()`, by `EnumIter`: the variants in their order.
unfoldable pub iter : List JsonOption
iter =
    auto_detect ∷ columns ∷ compression ∷ convert_strings_to_integers ∷ dateformat ∷ filename
    ∷ files ∷ format ∷ hive_partitioning ∷ ignore_errors ∷ maximum_depth ∷ maximum_object_size
    ∷ records ∷ sample_size ∷ select ∷ timestampformat ∷ union_by_name ∷ []

-- `as_ref`, by `AsRefStr` in snake case.
unfoldable pub as_ref : JsonOption → Text
as_ref auto_detect = str "auto_detect"
as_ref columns = str "columns"
as_ref compression = str "compression"
as_ref convert_strings_to_integers = str "convert_strings_to_integers"
as_ref dateformat = str "dateformat"
as_ref filename = str "filename"
as_ref files = str "files"
as_ref format = str "format"
as_ref hive_partitioning = str "hive_partitioning"
as_ref ignore_errors = str "ignore_errors"
as_ref maximum_depth = str "maximum_depth"
as_ref maximum_object_size = str "maximum_object_size"
as_ref records = str "records"
as_ref sample_size = str "sample_size"
as_ref select = str "select"
as_ref timestampformat = str "timestampformat"
as_ref union_by_name = str "union_by_name"

unfoldable pub is_required : JsonOption → Bool
is_required files = true
is_required _ = false

instance unfoldable pub json_options : OptionEnum JsonOption
unfolding iter as_ref is_required
json_options = record { iter = iter; as_ref = as_ref; is_required = is_required }

-- `{option}` is written by `Display`, which is the same name as `as_ref`.
unfoldable pub extract_option : JsonOption → OptionMap → Bool → Option Text
extract_option option table_options quoting =
    Option.map
      (λ res.
        if quoting
        then concat (as_ref option ∷ str " = '" ∷ res ∷ str "'" ∷ [])
        else concat (as_ref option ∷ str " = " ∷ res ∷ []))
      (get table_options (as_ref option))

-- The vector of the optional arguments, in the order in which the code lists them.
unfoldable pub arguments : OptionMap → Text → List (Option Text)
unfolding extract_option
arguments table_options files_argument =
    some files_argument
    ∷ extract_option auto_detect table_options false
    ∷ extract_option columns table_options false
    ∷ extract_option compression table_options true
    ∷ extract_option convert_strings_to_integers table_options false
    ∷ extract_option dateformat table_options true
    ∷ extract_option filename table_options false
    ∷ extract_option format table_options true
    ∷ extract_option hive_partitioning table_options false
    ∷ extract_option ignore_errors table_options false
    ∷ extract_option maximum_depth table_options false
    ∷ extract_option maximum_object_size table_options false
    ∷ extract_option records table_options false
    ∷ extract_option sample_size table_options false
    ∷ extract_option timestampformat table_options true
    ∷ extract_option union_by_name table_options false
    ∷ []

unfoldable pub create_view : Text → Text → OptionMap → Result Text
unfolding arguments
create_view table_name schema_name table_options = do
  paths ← ok_or (get table_options (as_ref files)) (error (str "files option is required"))
  let reader_args = join (str ", ") (flatten (arguments table_options (format_csv paths)))
  let columns_read = Option.get_or (get table_options (as_ref select)) (str "*")
  ok (
      concat (
        str "CREATE VIEW IF NOT EXISTS "
        ∷ schema_name
        ∷ str "."
        ∷ table_name
        ∷ str " AS SELECT "
        ∷ columns_read
        ∷ str " FROM read_json("
        ∷ reader_args
        ∷ str ")"
        ∷ []))

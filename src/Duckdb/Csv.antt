-- ===== src/Duckdb/Csv.antt =====
-- src/duckdb/csv.rs: the options and the statement that they become.
pub mod Arguments
use pg_analytics.Prelude.{Bool, true, false, Option, some, List, [], ◌∷◌, flatten}
use pg_analytics.Text.{Text, str, concat, join}
use pg_analytics.Result.{Result, ok, error, ok_or, ◌>>=◌}
use pg_analytics.Options.{OptionMap, OptionEnum, get}
use pg_analytics.Duckdb.Utils.{format_csv}
use mathlib.Core.Option

pub data CsvOption : Type 0 where
  all_varchar allow_quoted_nulls auto_detect auto_type_candidates columns : CsvOption
  compression dateformat decimal_separator delim escape filename files : CsvOption
  force_not_null header hive_partitioning hive_types hive_types_autocast : CsvOption
  ignore_errors max_line_size names new_line normalize_names null_padding : CsvOption
  nullstr parallel preserve_casing quote sample_size select sep skip : CsvOption
  timestampformat types union_by_name : CsvOption

-- `CsvOption::iter()`, by `EnumIter`: the variants in their order.
unfoldable pub iter : List CsvOption
iter =
    all_varchar ∷ allow_quoted_nulls ∷ auto_detect ∷ auto_type_candidates ∷ columns ∷ compression
    ∷ dateformat ∷ decimal_separator ∷ delim ∷ escape ∷ filename ∷ files ∷ force_not_null ∷ header
    ∷ hive_partitioning ∷ hive_types ∷ hive_types_autocast ∷ ignore_errors ∷ max_line_size ∷ names
    ∷ new_line ∷ normalize_names ∷ null_padding ∷ nullstr ∷ parallel ∷ preserve_casing ∷ quote
    ∷ sample_size ∷ select ∷ sep ∷ skip ∷ timestampformat ∷ types ∷ union_by_name ∷ []

-- `as_ref`, by `AsRefStr` in snake case.
unfoldable pub as_ref : CsvOption → Text
as_ref all_varchar = str "all_varchar"
as_ref allow_quoted_nulls = str "allow_quoted_nulls"
as_ref auto_detect = str "auto_detect"
as_ref auto_type_candidates = str "auto_type_candidates"
as_ref columns = str "columns"
as_ref compression = str "compression"
as_ref dateformat = str "dateformat"
as_ref decimal_separator = str "decimal_separator"
as_ref delim = str "delim"
as_ref escape = str "escape"
as_ref filename = str "filename"
as_ref files = str "files"
as_ref force_not_null = str "force_not_null"
as_ref header = str "header"
as_ref hive_partitioning = str "hive_partitioning"
as_ref hive_types = str "hive_types"
as_ref hive_types_autocast = str "hive_types_autocast"
as_ref ignore_errors = str "ignore_errors"
as_ref max_line_size = str "max_line_size"
as_ref names = str "names"
as_ref new_line = str "new_line"
as_ref normalize_names = str "normalize_names"
as_ref null_padding = str "null_padding"
as_ref nullstr = str "nullstr"
as_ref parallel = str "parallel"
as_ref preserve_casing = str "preserve_casing"
as_ref quote = str "quote"
as_ref sample_size = str "sample_size"
as_ref select = str "select"
as_ref sep = str "sep"
as_ref skip = str "skip"
as_ref timestampformat = str "timestampformat"
as_ref types = str "types"
as_ref union_by_name = str "union_by_name"

unfoldable pub is_required : CsvOption → Bool
is_required all_varchar = false
is_required allow_quoted_nulls = false
is_required auto_detect = false
is_required auto_type_candidates = false
is_required columns = false
is_required compression = false
is_required dateformat = false
is_required decimal_separator = false
is_required delim = false
is_required escape = false
is_required filename = false
is_required files = true
is_required force_not_null = false
is_required header = false
is_required hive_partitioning = false
is_required hive_types = false
is_required hive_types_autocast = false
is_required ignore_errors = false
is_required max_line_size = false
is_required names = false
is_required new_line = false
is_required normalize_names = false
is_required null_padding = false
is_required nullstr = false
is_required parallel = false
is_required preserve_casing = false
is_required quote = false
is_required sample_size = false
is_required select = false
is_required sep = false
is_required skip = false
is_required timestampformat = false
is_required types = false
is_required union_by_name = false

instance unfoldable pub csv_options : OptionEnum CsvOption
unfolding iter as_ref is_required
csv_options = record { iter = iter; as_ref = as_ref; is_required = is_required }

-- The vector of the optional arguments, in the order in which the code lists them.
unfoldable pub arguments : OptionMap → Text → List (Option Text)
arguments table_options files_argument =
    some files_argument
    ∷ Option.map (λ option. concat (str "all_varchar = " ∷ option ∷ []))
        (get table_options (as_ref all_varchar))
    ∷ Option.map (λ option. concat (str "allow_quoted_nulls = " ∷ option ∷ []))
        (get table_options (as_ref allow_quoted_nulls))
    ∷ Option.map (λ option. concat (str "auto_detect = " ∷ option ∷ []))
        (get table_options (as_ref auto_detect))
    ∷ Option.map (λ option. concat (str "auto_type_candidates = " ∷ format_csv option ∷ []))
        (get table_options (as_ref auto_type_candidates))
    ∷ Option.map (λ option. concat (str "columns = " ∷ option ∷ []))
        (get table_options (as_ref columns))
    ∷ Option.map (λ option. concat (str "compression = '" ∷ option ∷ str "'" ∷ []))
        (get table_options (as_ref compression))
    ∷ Option.map (λ option. concat (str "dateformat = '" ∷ option ∷ str "'" ∷ []))
        (get table_options (as_ref dateformat))
    ∷ Option.map (λ option. concat (str "decimal_separator = '" ∷ option ∷ str "'" ∷ []))
        (get table_options (as_ref decimal_separator))
    ∷ Option.map (λ option. concat (str "delim = '" ∷ option ∷ str "'" ∷ []))
        (get table_options (as_ref delim))
    ∷ Option.map (λ option. concat (str "escape = '" ∷ option ∷ str "'" ∷ []))
        (get table_options (as_ref escape))
    ∷ Option.map (λ option. concat (str "filename = " ∷ option ∷ []))
        (get table_options (as_ref filename))
    ∷ Option.map (λ option. concat (str "force_not_null = " ∷ format_csv option ∷ []))
        (get table_options (as_ref force_not_null))
    ∷ Option.map (λ option. concat (str "header = " ∷ option ∷ []))
        (get table_options (as_ref header))
    ∷ Option.map (λ option. concat (str "hive_partitioning = " ∷ option ∷ []))
        (get table_options (as_ref hive_partitioning))
    ∷ Option.map (λ option. concat (str "hive_types = " ∷ option ∷ []))
        (get table_options (as_ref hive_types))
    ∷ Option.map (λ option. concat (str "hive_types_autocast = " ∷ option ∷ []))
        (get table_options (as_ref hive_types_autocast))
    ∷ Option.map (λ option. concat (str "ignore_errors = " ∷ option ∷ []))
        (get table_options (as_ref ignore_errors))
    ∷ Option.map (λ option. concat (str "max_line_size = " ∷ option ∷ []))
        (get table_options (as_ref max_line_size))
    ∷ Option.map (λ option. concat (str "names = " ∷ format_csv option ∷ []))
        (get table_options (as_ref names))
    ∷ Option.map (λ option. concat (str "new_line = '" ∷ option ∷ str "'" ∷ []))
        (get table_options (as_ref new_line))
    ∷ Option.map (λ option. concat (str "normalize_names = " ∷ option ∷ []))
        (get table_options (as_ref normalize_names))
    ∷ Option.map (λ option. concat (str "null_padding = " ∷ option ∷ []))
        (get table_options (as_ref null_padding))
    ∷ Option.map (λ option. concat (str "nullstr = " ∷ format_csv option ∷ []))
        (get table_options (as_ref nullstr))
    ∷ Option.map (λ option. concat (str "parallel = " ∷ option ∷ []))
        (get table_options (as_ref parallel))
    ∷ Option.map (λ option. concat (str "quote = '" ∷ option ∷ str "'" ∷ []))
        (get table_options (as_ref quote))
    ∷ Option.map (λ option. concat (str "sample_size = " ∷ option ∷ []))
        (get table_options (as_ref sample_size))
    ∷ Option.map (λ option. concat (str "sep = '" ∷ option ∷ str "'" ∷ []))
        (get table_options (as_ref sep))
    ∷ Option.map (λ option. concat (str "skip = " ∷ option ∷ [])) (get table_options (as_ref skip))
    ∷ Option.map (λ option. concat (str "timestampformat = '" ∷ option ∷ str "'" ∷ []))
        (get table_options (as_ref timestampformat))
    ∷ Option.map (λ option. concat (str "types = " ∷ format_csv option ∷ []))
        (get table_options (as_ref types))
    ∷ Option.map (λ option. concat (str "union_by_name = " ∷ option ∷ []))
        (get table_options (as_ref union_by_name))
    ∷ []

unfoldable pub create_view : Text → Text → OptionMap → Result Text
unfolding arguments
create_view table_name schema_name table_options = do
  paths ← ok_or (get table_options (as_ref files)) (error (str "files option is required"))
  let reader_args = join (str ", ") (flatten (arguments table_options (format_csv paths)))
  let columns_read = Option.get_or (get table_options (as_ref select)) (str "*")
  ok (
      concat (
        str "CREATE VIEW IF NOT EXISTS "
        ∷ schema_name
        ∷ str "."
        ∷ table_name
        ∷ str " AS SELECT "
        ∷ columns_read
        ∷ str " FROM read_csv("
        ∷ reader_args
        ∷ str ")"
        ∷ []))

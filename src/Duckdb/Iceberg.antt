-- ===== src/Duckdb/Iceberg.antt =====
-- src/duckdb/iceberg.rs: the options and the statement that they become.
pub mod Arguments
use pg_analytics.Prelude.{Bool, true, false, Option, some, List, [], ◌∷◌, flatten}
use pg_analytics.Text.{Text, str, concat, join}
use pg_analytics.Result.{Result, ok, error, ok_or, ◌>>=◌}
use pg_analytics.Options.{OptionMap, OptionEnum, get}
use mathlib.Core.Option

pub data IcebergOption : Type 0 where
  allow_moved_paths metadata_compression_codec skip_schema_inference files : IcebergOption
  preserve_casing select : IcebergOption

-- `IcebergOption::iter()`, by `EnumIter`: the variants in their order.
unfoldable pub iter : List IcebergOption
iter =
    allow_moved_paths ∷ metadata_compression_codec ∷ skip_schema_inference ∷ files ∷ preserve_casing
    ∷ select ∷ []

-- `as_ref`, by `AsRefStr` in snake case.
unfoldable pub as_ref : IcebergOption → Text
as_ref allow_moved_paths = str "allow_moved_paths"
as_ref metadata_compression_codec = str "metadata_compression_codec"
as_ref skip_schema_inference = str "skip_schema_inference"
as_ref files = str "files"
as_ref preserve_casing = str "preserve_casing"
as_ref select = str "select"

unfoldable pub is_required : IcebergOption → Bool
is_required allow_moved_paths = false
is_required metadata_compression_codec = false
is_required skip_schema_inference = false
is_required files = true
is_required preserve_casing = false
is_required select = false

instance unfoldable pub iceberg_options : OptionEnum IcebergOption
unfolding iter as_ref is_required
iceberg_options = record { iter = iter; as_ref = as_ref; is_required = is_required }

-- The vector of the optional arguments, in the order in which the code lists them.
unfoldable pub arguments : OptionMap → Text → List (Option Text)
arguments table_options files_argument =
    some files_argument
    ∷ Option.map (λ option. concat (str "allow_moved_paths = " ∷ option ∷ []))
        (get table_options (as_ref allow_moved_paths))
    ∷ Option.map (λ option. concat (str "metadata_compression_codec = '" ∷ option ∷ str "'" ∷ []))
        (get table_options (as_ref metadata_compression_codec))
    ∷ Option.map (λ option. concat (str "skip_schema_inference = " ∷ option ∷ []))
        (get table_options (as_ref skip_schema_inference))
    ∷ []

unfoldable pub create_view : Text → Text → OptionMap → Result Text
unfolding arguments
create_view table_name schema_name table_options = do
  paths ← ok_or (get table_options (as_ref files)) (error (str "files option is required"))
  let reader_args =
      join (str ", ") (flatten (arguments table_options (concat (str "'" ∷ paths ∷ str "'" ∷ []))))
  let columns_read = Option.get_or (get table_options (as_ref select)) (str "*")
  ok (
      concat (
        str "CREATE VIEW IF NOT EXISTS "
        ∷ schema_name
        ∷ str "."
        ∷ table_name
        ∷ str " AS SELECT "
        ∷ columns_read
        ∷ str " FROM iceberg_scan("
        ∷ reader_args
        ∷ str ")"
        ∷ []))

-- ===== src/Duckdb/Delta.antt =====
-- src/duckdb/delta.rs: the options and the statement that they become.
use pg_analytics.Prelude.{Bool, true, false, List, [], ◌∷◌}
use pg_analytics.Text.{Text, str, concat}
use pg_analytics.Result.{Result, ok, error, ok_or, ◌>>=◌}
use pg_analytics.Options.{OptionMap, OptionEnum, get}
use mathlib.Core.Option

pub data DeltaOption : Type 0 where
  files preserve_casing select : DeltaOption

-- `DeltaOption::iter()`, by `EnumIter`: the variants in their order.
unfoldable pub iter : List DeltaOption
iter = files ∷ preserve_casing ∷ select ∷ []

-- `as_ref`, by `AsRefStr` in snake case.
unfoldable pub as_ref : DeltaOption → Text
as_ref files = str "files"
as_ref preserve_casing = str "preserve_casing"
as_ref select = str "select"

unfoldable pub is_required : DeltaOption → Bool
is_required files = true
is_required preserve_casing = false
is_required select = false

instance unfoldable pub delta_options : OptionEnum DeltaOption
unfolding iter as_ref is_required
delta_options = record { iter = iter; as_ref = as_ref; is_required = is_required }

unfoldable pub create_view : Text → Text → OptionMap → Result Text
create_view table_name schema_name table_options = do
  paths ← ok_or (get table_options (as_ref files)) (error (str "files option is required"))
  let reader_args = concat (str "'" ∷ paths ∷ str "'" ∷ [])
  let columns_read = Option.get_or (get table_options (as_ref select)) (str "*")
  ok (
      concat (
        str "CREATE VIEW IF NOT EXISTS "
        ∷ schema_name
        ∷ str "."
        ∷ table_name
        ∷ str " AS SELECT "
        ∷ columns_read
        ∷ str " FROM delta_scan("
        ∷ reader_args
        ∷ str ")"
        ∷ []))

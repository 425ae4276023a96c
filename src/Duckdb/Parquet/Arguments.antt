-- ===== src/Duckdb/Parquet/Arguments.antt =====
-- src/duckdb/parquet.rs: what `create_view` passes to DuckDB, against a description by the enum.
use pg_analytics.Prelude.{
  ◌≡◌, refl, inl, inr, Option, none, some, [], ◌∷◌, flatten, Option-cases, ap,
}
use pg_analytics.Text.{Text, str, concat, join}
use pg_analytics.Result.{ok, error, ok_or, ◌>>=◌}
use pg_analytics.Options.{OptionMap, get}
use pg_analytics.Options.Reference.{bare, passed, view_statement}
use pg_analytics.Duckdb.Utils.{format_csv}
use pg_analytics.Duckdb.Parquet.{
  ParquetOption, binary_as_string, file_name, file_row_number, files, hive_partitioning, hive_types,
  hive_types_autocast, preserve_casing, union_by_name, select, iter, as_ref, parquet_options,
  arguments, create_view,
}
use mathlib.Core.Option

-- How an option is passed on, if it is.
unfoldable pub style : ParquetOption → Option (Text → Text)
style binary_as_string = some (bare (as_ref binary_as_string))
style file_name = some (bare (str "filename"))
style file_row_number = some (bare (as_ref file_row_number))
style files = none
style hive_partitioning = some (bare (as_ref hive_partitioning))
style hive_types = some (bare (as_ref hive_types))
style hive_types_autocast = some (bare (as_ref hive_types_autocast))
style preserve_casing = none
style union_by_name = some (bare (as_ref union_by_name))
style select = none

-- The optional arguments of the view are the options of the enum in its order: each one that is
-- given stands once, behind the files, in its style; an option without a style is never passed.
arguments-passed :
    (m : OptionMap) (paths : Text) → flatten (arguments m paths) ≡ paths ∷ passed style m
unfolding arguments style iter as_ref str concat parquet_options
arguments-passed m paths = refl

abbrev pub select_or_star : OptionMap → Text
select_or_star m = Option.get_or (get m (as_ref select)) (str "*")

view_text :
    (t s : Text) (m : OptionMap) (paths : Text)
    → concat (
        str "CREATE VIEW IF NOT EXISTS "
        ∷ s
        ∷ str "."
        ∷ t
        ∷ str " AS SELECT "
        ∷ select_or_star m
        ∷ str " FROM read_parquet("
        ∷ join (str ", ") (flatten (arguments m (format_csv paths)))
        ∷ str ")"
        ∷ [])
      ≡ view_statement
          (str "read_parquet")
          s
          t
          (select_or_star m)
          (format_csv paths ∷ passed style m)
view_text t s m paths = rw arguments-passed (unfold concat str in refl)

-- For every map of options, `create_view` fails with its message if the files are not given.
-- Otherwise it gives the view over the reader function with the given or default columns, whose
-- arguments are the files and behind them every given option of the enum that has a style, in the
-- order of the enum, once each and rendered in that style.
pub parquet_create_view-eq :
    (table_name schema_name : Text) (m : OptionMap)
    → create_view table_name schema_name m ≡ (do
      paths ← ok_or (get m (as_ref files)) (error (str "files option is required"))
      ok (
          view_statement
            (str "read_parquet")
            schema_name
            table_name
            (select_or_star m)
            (format_csv paths ∷ passed style m)))
unfolding create_view
parquet_create_view-eq t s m = elim (Option-cases (get m (as_ref files))) [
  | inl e ↦ rw e
  | inr (paths, e) ↦ rw e (ap ok (view_text t s m paths))
]

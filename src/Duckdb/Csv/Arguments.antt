-- ===== src/Duckdb/Csv/Arguments.antt =====
-- src/duckdb/csv.rs: what `create_view` passes to DuckDB, against a description by the enum.
use pg_analytics.Prelude.{
  ◌≡◌, refl, inl, inr, Option, none, some, [], ◌∷◌, flatten, Option-cases, ap,
}
use pg_analytics.Text.{Text, str, concat, join}
use pg_analytics.Result.{ok, error, ok_or, ◌>>=◌}
use pg_analytics.Options.{OptionMap, get}
use pg_analytics.Options.Reference.{bare, quoted, listed, passed, view_statement}
use pg_analytics.Duckdb.Utils.{format_csv}
use pg_analytics.Duckdb.Csv.{
  CsvOption, all_varchar, allow_quoted_nulls, auto_detect, auto_type_candidates, columns,
  compression, dateformat, decimal_separator, delim, escape, filename, files, force_not_null,
  header, hive_partitioning, hive_types, hive_types_autocast, ignore_errors, max_line_size, names,
  new_line, normalize_names, null_padding, nullstr, parallel, preserve_casing, quote, sample_size,
  select, sep, skip, timestampformat, types, union_by_name, iter, as_ref, csv_options, arguments,
  create_view,
}
use mathlib.Core.Option

-- How an option is passed on, if it is.
unfoldable pub style : CsvOption → Option (Text → Text)
style all_varchar = some (bare (as_ref all_varchar))
style allow_quoted_nulls = some (bare (as_ref allow_quoted_nulls))
style auto_detect = some (bare (as_ref auto_detect))
style auto_type_candidates = some (listed (as_ref auto_type_candidates))
style columns = some (bare (as_ref columns))
style compression = some (quoted (as_ref compression))
style dateformat = some (quoted (as_ref dateformat))
style decimal_separator = some (quoted (as_ref decimal_separator))
style delim = some (quoted (as_ref delim))
style escape = some (quoted (as_ref escape))
style filename = some (bare (as_ref filename))
style files = none
style force_not_null = some (listed (as_ref force_not_null))
style header = some (bare (as_ref header))
style hive_partitioning = some (bare (as_ref hive_partitioning))
style hive_types = some (bare (as_ref hive_types))
style hive_types_autocast = some (bare (as_ref hive_types_autocast))
style ignore_errors = some (bare (as_ref ignore_errors))
style max_line_size = some (bare (as_ref max_line_size))
style names = some (listed (as_ref names))
style new_line = some (quoted (as_ref new_line))
style normalize_names = some (bare (as_ref normalize_names))
style null_padding = some (bare (as_ref null_padding))
style nullstr = some (listed (as_ref nullstr))
style parallel = some (bare (as_ref parallel))
style preserve_casing = none
style quote = some (quoted (as_ref quote))
style sample_size = some (bare (as_ref sample_size))
style select = none
style sep = some (quoted (as_ref sep))
style skip = some (bare (as_ref skip))
style timestampformat = some (quoted (as_ref timestampformat))
style types = some (listed (as_ref types))
style union_by_name = some (bare (as_ref union_by_name))

-- The optional arguments of the view are the options of the enum in its order: each one that is
-- given stands once, behind the files, in its style; an option without a style is never passed.
arguments-passed :
    (m : OptionMap) (paths : Text) → flatten (arguments m paths) ≡ paths ∷ passed style m
unfolding arguments style iter as_ref str concat csv_options
arguments-passed m paths = refl

abbrev pub select_or_star : OptionMap → Text
select_or_star m = Option.get_or (get m (as_ref select)) (str "*")

view_text :
    (t s : Text) (m : OptionMap) (paths : Text)
    → concat (
        str "CREATE VIEW IF NOT EXISTS "
        ∷ s
        ∷ str "."
        ∷ t
        ∷ str " AS SELECT "
        ∷ select_or_star m
        ∷ str " FROM read_csv("
        ∷ join (str ", ") (flatten (arguments m (format_csv paths)))
        ∷ str ")"
        ∷ [])
      ≡ view_statement (str "read_csv") s t (select_or_star m) (format_csv paths ∷ passed style m)
view_text t s m paths = rw arguments-passed (unfold concat str in refl)

-- For every map of options, `create_view` fails with its message if the files are not given.
-- Otherwise it gives the view over the reader function with the given or default columns, whose
-- arguments are the files and behind them every given option of the enum that has a style, in the
-- order of the enum, once each and rendered in that style.
pub csv_create_view-eq :
    (table_name schema_name : Text) (m : OptionMap)
    → create_view table_name schema_name m ≡ (do
      paths ← ok_or (get m (as_ref files)) (error (str "files option is required"))
      ok (
          view_statement
            (str "read_csv")
            schema_name
            table_name
            (select_or_star m)
            (format_csv paths ∷ passed style m)))
unfolding create_view
csv_create_view-eq t s m = elim (Option-cases (get m (as_ref files))) [
  | inl e ↦ rw e
  | inr (paths, e) ↦ rw e (ap ok (view_text t s m paths))
]

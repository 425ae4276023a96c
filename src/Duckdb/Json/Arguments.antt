-- ===== src/Duckdb/Json/Arguments.antt =====
-- src/duckdb/json.rs: what `create_view` passes to DuckDB, against a description by the enum.
use pg_analytics.Prelude.{
  ◌≡◌, refl, inl, inr, Option, none, some, [], ◌∷◌, flatten, Option-cases, ap,
}
use pg_analytics.Text.{Text, str, concat, join}
use pg_analytics.Result.{ok, error, ok_or, ◌>>=◌}
use pg_analytics.Options.{OptionMap, get}
use pg_analytics.Options.Reference.{bare, quoted, passed, view_statement}
use pg_analytics.Duckdb.Utils.{format_csv}
use pg_analytics.Duckdb.Json.{
  JsonOption, auto_detect, columns, compression, convert_strings_to_integers, dateformat, filename,
  files, format, hive_partitioning, ignore_errors, maximum_depth, maximum_object_size, records,
  sample_size, select, timestampformat, union_by_name, iter, as_ref, json_options, arguments,
  create_view,
}
use mathlib.Core.Option

-- How an option is passed on, if it is.
unfoldable pub style : JsonOption → Option (Text → Text)
style auto_detect = some (bare (as_ref auto_detect))
style columns = some (bare (as_ref columns))
style compression = some (quoted (as_ref compression))
style convert_strings_to_integers = some (bare (as_ref convert_strings_to_integers))
style dateformat = some (quoted (as_ref dateformat))
style filename = some (bare (as_ref filename))
style files = none
style format = some (quoted (as_ref format))
style hive_partitioning = some (bare (as_ref hive_partitioning))
style ignore_errors = some (bare (as_ref ignore_errors))
style maximum_depth = some (bare (as_ref maximum_depth))
style maximum_object_size = some (bare (as_ref maximum_object_size))
style records = some (bare (as_ref records))
style sample_size = some (bare (as_ref sample_size))
style select = none
style timestampformat = some (quoted (as_ref timestampformat))
style union_by_name = some (bare (as_ref union_by_name))

-- The optional arguments of the view are the options of the enum in its order: each one that is
-- given stands once, behind the files, in its style; an option without a style is never passed.
arguments-passed :
    (m : OptionMap) (paths : Text) → flatten (arguments m paths) ≡ paths ∷ passed style m
unfolding arguments style iter as_ref str concat json_options
arguments-passed m paths = refl

abbrev pub select_or_star : OptionMap → Text
select_or_star m = Option.get_or (get m (as_ref select)) (str "*")

view_text :
    (t s : Text) (m : OptionMap) (paths : Text)
    → concat (
        str "CREATE VIEW IF NOT EXISTS "
        ∷ s
        ∷ str "."
        ∷ t
        ∷ str " AS SELECT "
        ∷ select_or_star m
        ∷ str " FROM read_json("
        ∷ join (str ", ") (flatten (arguments m (format_csv paths)))
        ∷ str ")"
        ∷ [])
      ≡ view_statement (str "read_json") s t (select_or_star m) (format_csv paths ∷ passed style m)
view_text t s m paths = rw arguments-passed (unfold concat str in refl)

-- For every map of options, `create_view` fails with its message if the files are not given.
-- Otherwise it gives the view over the reader function with the given or default columns, whose
-- arguments are the files and behind them every given option of the enum that has a style, in the
-- order of the enum, once each and rendered in that style.
pub json_create_view-eq :
    (table_name schema_name : Text) (m : OptionMap)
    → create_view table_name schema_name m ≡ (do
      paths ← ok_or (get m (as_ref files)) (error (str "files option is required"))
      ok (
          view_statement
            (str "read_json")
            schema_name
            table_name
            (select_or_star m)
            (format_csv paths ∷ passed style m)))
unfolding create_view
json_create_view-eq t s m = elim (Option-cases (get m (as_ref files))) [
  | inl e ↦ rw e
  | inr (paths, e) ↦ rw e (ap ok (view_text t s m paths))
]

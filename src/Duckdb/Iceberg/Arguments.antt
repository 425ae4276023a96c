-- ===== src/Duckdb/Iceberg/Arguments.antt =====
-- src/duckdb/iceberg.rs: what `create_view` passes to DuckDB, against a description by the enum.
use pg_analytics.Prelude.{
  ◌≡◌, refl, inl, inr, Option, none, some, [], ◌∷◌, flatten, Option-cases, ap,
}
use pg_analytics.Text.{Text, str, concat, join}
use pg_analytics.Result.{ok, error, ok_or, ◌>>=◌}
use pg_analytics.Options.{OptionMap, get}
use pg_analytics.Options.Reference.{bare, quoted, passed, view_statement}
use pg_analytics.Duckdb.Iceberg.{
  IcebergOption, allow_moved_paths, metadata_compression_codec, skip_schema_inference, files,
  preserve_casing, select, iter, as_ref, iceberg_options, arguments, create_view,
}
use mathlib.Core.Option

-- How an option is passed on, if it is.
unfoldable pub style : IcebergOption → Option (Text → Text)
style allow_moved_paths = some (bare (as_ref allow_moved_paths))
style metadata_compression_codec = some (quoted (as_ref metadata_compression_codec))
style skip_schema_inference = some (bare (as_ref skip_schema_inference))
style files = none
style preserve_casing = none
style select = none

-- The optional arguments of the view are the options of the enum in its order: each one that is
-- given stands once, behind the files, in its style; an option without a style is never passed.
arguments-passed :
    (m : OptionMap) (paths : Text) → flatten (arguments m paths) ≡ paths ∷ passed style m
unfolding arguments style iter as_ref str concat iceberg_options
arguments-passed m paths = refl

abbrev pub select_or_star : OptionMap → Text
select_or_star m = Option.get_or (get m (as_ref select)) (str "*")

view_text :
    (t s : Text) (m : OptionMap) (paths : Text)
    → concat (
        str "CREATE VIEW IF NOT EXISTS "
        ∷ s
        ∷ str "."
        ∷ t
        ∷ str " AS SELECT "
        ∷ select_or_star m
        ∷ str " FROM iceberg_scan("
        ∷ join (str ", ") (flatten (arguments m (concat (str "'" ∷ paths ∷ str "'" ∷ []))))
        ∷ str ")"
        ∷ [])
      ≡ view_statement
          (str "iceberg_scan")
          s
          t
          (select_or_star m)
          (concat (str "'" ∷ paths ∷ str "'" ∷ []) ∷ passed style m)
view_text t s m paths = rw arguments-passed (unfold concat str in refl)

-- For every map of options, `create_view` fails with its message if the files are not given.
-- Otherwise it gives the view over the reader function with the given or default columns, whose
-- arguments are the files and behind them every given option of the enum that has a style, in the
-- order of the enum, once each and rendered in that style.
pub iceberg_create_view-eq :
    (table_name schema_name : Text) (m : OptionMap)
    → create_view table_name schema_name m ≡ (do
      paths ← ok_or (get m (as_ref files)) (error (str "files option is required"))
      ok (
          view_statement
            (str "iceberg_scan")
            schema_name
            table_name
            (select_or_star m)
            (concat (str "'" ∷ paths ∷ str "'" ∷ []) ∷ passed style m)))
unfolding create_view
iceberg_create_view-eq t s m = elim (Option-cases (get m (as_ref files))) [
  | inl e ↦ rw e
  | inr (paths, e) ↦ rw e (ap ok (view_text t s m paths))
]

-- ===== src/Duckdb/Spatial/Arguments.antt =====
-- src/duckdb/spatial.rs: what `create_view` passes to DuckDB, against a description written out.
use pg_analytics.Prelude.{
  ◌≡◌, refl, inl, inr, Option, List, [], ◌∷◌, flatten, map, Option-cases, ap,
}
use pg_analytics.Text.{Text, str, concat, join}
use pg_analytics.Result.{ok, error, ok_or, ◌>>=◌}
use pg_analytics.Options.{OptionMap, get}
use pg_analytics.Options.Lookup.{contains_key-get, contains_key-get-none}
use pg_analytics.Options.Reference.{view_statement}
use pg_analytics.Duckdb.Spatial.{iter, as_ref, spatial_options, spatial_argument, create_view}
use mathlib.Core.Option

-- An option as `name=value`, if it is given.
abbrev named : OptionMap → Text → Option Text
named m name = Option.map (λ value. concat (name ∷ str "=" ∷ value ∷ [])) (get m name)

-- What is passed, written out: the files as one quoted text, and the other options by their names.
unfoldable pub spatial_passed : OptionMap → List Text
spatial_passed m = flatten (
    Option.map (λ value. concat (str "'" ∷ value ∷ str "'" ∷ [])) (get m (str "files"))
    ∷ named m (str "sequential_layer_scan")
    ∷ named m (str "spatial_filter")
    ∷ named m (str "open_options")
    ∷ named m (str "layer")
    ∷ named m (str "allowed_drivers")
    ∷ named m (str "sibling_files")
    ∷ named m (str "spatial_filter_box")
    ∷ named m (str "keep_wkb")
    ∷ [])

arguments-passed : (m : OptionMap) → flatten (map (spatial_argument m) iter) ≡ spatial_passed m
unfolding spatial_argument spatial_passed iter as_ref str concat
arguments-passed m = refl

view_text :
    (t s : Text) (m : OptionMap)
    → concat (
        str "CREATE VIEW IF NOT EXISTS "
        ∷ s
        ∷ str "."
        ∷ t
        ∷ str " AS SELECT * FROM st_read("
        ∷ join (str ", ") (flatten (map (spatial_argument m) iter))
        ∷ str ")"
        ∷ [])
      ≡ view_statement (str "st_read") s t (str "*") (spatial_passed m)
view_text t s m = rw arguments-passed (unfold concat str in refl)

-- For every map of options, `create_view` fails with its message if the files are not given.
-- Otherwise it gives the view of all columns over the reader function, whose arguments are the files
-- as one quoted text, and behind them each of the options sequential_layer_scan, spatial_filter,
-- open_options, layer, allowed_drivers, sibling_files, spatial_filter_box and keep_wkb that is given,
-- in this order and once each, as its name and its value.
pub spatial_create_view-eq :
    (table_name schema_name : Text) (m : OptionMap)
    → create_view table_name schema_name m ≡ (do
      paths ← ok_or (get m (str "files")) (error (str "Files option is required"))
      ok (view_statement (str "st_read") schema_name table_name (str "*") (spatial_passed m)))
unfolding create_view as_ref
spatial_create_view-eq t s m = elim (Option-cases (get m (str "files"))) [
  | inl e ↦ rw (e, contains_key-get-none (str "files") m e) refl
  | inr (paths, e) ↦ rw (e, contains_key-get (str "files") m paths e) (ap ok (view_text t s m))
]

-- ===== src/Duckdb/Spatial.antt =====
-- src/duckdb/spatial.rs: the options and the statement that they become.
pub mod Arguments
use pg_analytics.Prelude.{
  Bool, true, false, not, Option, List, [], ◌∷◌, flatten, map, if◌then◌else◌,
}
use pg_analytics.Text.{Text, str, concat, join}
use pg_analytics.Result.{Result, ok, err, error}
use pg_analytics.Options.{OptionMap, OptionEnum, get, contains_key}
use mathlib.Core.Option

pub data SpatialOption : Type 0 where
  files sequential_layer_scan spatial_filter open_options layer : SpatialOption
  allowed_drivers sibling_files spatial_filter_box keep_wkb : SpatialOption

-- `SpatialOption::iter()`, by `EnumIter`: the variants in their order.
unfoldable pub iter : List SpatialOption
iter =
    files ∷ sequential_layer_scan ∷ spatial_filter ∷ open_options ∷ layer ∷ allowed_drivers
    ∷ sibling_files ∷ spatial_filter_box ∷ keep_wkb ∷ []

-- `as_ref`, by `AsRefStr` in snake case.
unfoldable pub as_ref : SpatialOption → Text
as_ref files = str "files"
as_ref sequential_layer_scan = str "sequential_layer_scan"
as_ref spatial_filter = str "spatial_filter"
as_ref open_options = str "open_options"
as_ref layer = str "layer"
as_ref allowed_drivers = str "allowed_drivers"
as_ref sibling_files = str "sibling_files"
as_ref spatial_filter_box = str "spatial_filter_box"
as_ref keep_wkb = str "keep_wkb"

unfoldable pub is_required : SpatialOption → Bool
is_required files = true
is_required sequential_layer_scan = false
is_required spatial_filter = false
is_required open_options = false
is_required layer = false
is_required allowed_drivers = false
is_required sibling_files = false
is_required spatial_filter_box = false
is_required keep_wkb = false

instance unfoldable pub spatial_options : OptionEnum SpatialOption
unfolding iter as_ref is_required
spatial_options = record { iter = iter; as_ref = as_ref; is_required = is_required }

-- The closure of `filter_map`: the files as a quoted text, any other option as `name=value`.
unfoldable pub spatial_argument : OptionMap → SpatialOption → Option Text
spatial_argument table_options files =
    Option.map (λ value. concat (str "'" ∷ value ∷ str "'" ∷ [])) (get table_options (as_ref files))
spatial_argument table_options param =
    Option.map (λ value. concat (as_ref param ∷ str "=" ∷ value ∷ []))
      (get table_options (as_ref param))

unfoldable pub create_view : Text → Text → OptionMap → Result Text
unfolding spatial_argument
create_view table_name schema_name table_options =
    if not (contains_key table_options (as_ref files))
    then err (error (str "Files option is required"))
    else ok (
        concat (
          str "CREATE VIEW IF NOT EXISTS "
          ∷ schema_name
          ∷ str "."
          ∷ table_name
          ∷ str " AS SELECT * FROM st_read("
          ∷ join (str ", ") (flatten (map (spatial_argument table_options) iter))
          ∷ str ")"
          ∷ []))

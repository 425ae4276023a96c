-- ===== src/Datafusion/Options.antt =====
-- src/datafusion/src/fdw/options.rs, and `TableFormat` of src/datafusion/src/datafusion/format.rs.
use pg_analytics.Prelude.{Bool, true, false, Option, List, [], ◌∷◌, map, flatten, if◌then◌else◌}
use pg_analytics.Text.{Text, str, same, concat}
use pg_analytics.Result.{Result, ok, err, error, ◌>>◌}
use pg_analytics.Options.{OptionMap, OptionEnum}
use pg_analytics.Fdw.Validate.{OptList, OptionCheck, option_name, contains, check_required}

-- `TableOption`
pub data TableOption : Type 0 where
  path extension format : TableOption

unfoldable pub as_str : TableOption → Text
unfolding str
as_str path = str "path"
as_str extension = str "extension"
as_str format = str "format"

unfoldable pub is_required : TableOption → Bool
is_required path = true
is_required extension = true
is_required format = false

unfoldable pub iter : List TableOption
iter = path ∷ extension ∷ format ∷ []

instance unfoldable pub table_options : OptionEnum TableOption
unfolding as_str is_required iter
table_options = record { iter = iter; as_ref = as_str; is_required = is_required }

-- `TableFormat`
pub data TableFormat : Type 0 where
  plain delta : TableFormat

-- `TableFormat::from`
unfoldable pub table_format_from : Text → TableFormat
unfolding same
table_format_from name = if same name (str "delta") then delta else plain

-- `Url`: its host and its path.
pub record Url : Type 0 where
  pub host_str : Option Text
  pub url_path : Text

-- `ObjectStoreConfig`
pub record ObjectStoreConfig : Type 0 where
  pub url : Url
  pub table_format : TableFormat
  pub server_options : OptionMap
  pub user_mapping_options : OptionMap

-- The loop of `validate_options`; the list of names is printed in its Debug form.
unfoldable pub check_each : (List Text → Text) → List Text → List Text → Result (Unit {0})
unfolding contains
check_each debug [] valid_options = ok tt
check_each debug (opt ∷ opts) valid_options =
    let rest = check_each debug opts valid_options in
    if contains valid_options opt
    then rest
    else err (
        error (
          concat (
            str "Received unexpected option \""
            ∷ opt
            ∷ str "\". Valid options are: "
            ∷ debug valid_options
            ∷ [])))

-- What a validator checks of an enum of options: the names, and the options that are required.
unfoldable pub validate_enum :
    (List Text → Text) → (T : Type 0) ⦃e : OptionEnum T⦄ → OptionCheck → OptList → Result (Unit {0})
unfolding check_each option_name check_required
validate_enum debug T ⦃e⦄ c opt_list = do
  check_each debug (map option_name (flatten opt_list)) (map e.as_ref e.iter)
  check_required T c e.iter opt_list

-- ===== src/Options.antt =====
-- The options of foreign tables and user mappings, as `HashMap<String, String>`, and the enums
-- that name the options of one kind (src/fdw/base.rs, src/duckdb/*.rs).
pub mod Reference
pub mod Lookup
use pg_analytics.Prelude.{◌||◌, Bool, true, false, Option, none, some, List, [], ◌∷◌, if◌then◌else◌}
use pg_analytics.Text.{Text, same}

-- A `HashMap<String, String>`, as its entries; at most one of a key counts.
abbrev pub OptionMap : Type 0
OptionMap = List (Text × Text)

-- `HashMap::get`
unfoldable pub get : OptionMap → Text → Option Text
get [] key = none
get ((k, v) ∷ m) key = if same k key then some v else get m key

-- `HashMap::is_empty`
unfoldable pub is_empty : OptionMap → Bool
is_empty [] = true
is_empty (kv ∷ m) = false

-- What `IntoEnumIterator`, `AsRef<str>` and `OptionValidator` give of an enum of options.
pub record OptionEnum (T : Type 0) : Type 0 where
  pub iter : List T
  pub as_ref : T → Text
  pub is_required : T → Bool

-- `HashMap::contains_key`
unfoldable pub contains_key : OptionMap → Text → Bool
contains_key [] key = false
contains_key ((k, v) ∷ m) key = same k key || contains_key m key

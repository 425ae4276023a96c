-- ===== src/Options/Reference.antt =====
-- A uniform description of the arguments that the code passes to DuckDB: the options of the enum
-- in their order, each that is passed and given rendered in its style.
use pg_analytics.Prelude.{Option, none, some, List, [], ◌∷◌, flatten, map}
use pg_analytics.Text.{Text, str, concat, join}
use pg_analytics.Options.{OptionMap, OptionEnum, get}
use pg_analytics.Duckdb.Utils.{format_csv}
use mathlib.Core.Option

-- `name = value`
abbrev pub bare : Text → Text → Text
bare name value = concat (name ∷ str " = " ∷ value ∷ [])

-- `name = 'value'`
abbrev pub quoted : Text → Text → Text
quoted name value = concat (name ∷ str " = '" ∷ value ∷ str "'" ∷ [])

-- `name = ['a', 'b']`
abbrev pub listed : Text → Text → Text
listed name value = concat (name ∷ str " = " ∷ format_csv value ∷ [])

-- `NAME value`
abbrev pub word : Text → Text → Text
word name value = concat (name ∷ str " " ∷ value ∷ [])

-- `NAME 'value'`
abbrev pub quoted_word : Text → Text → Text
quoted_word name value = concat (name ∷ str " '" ∷ value ∷ str "'" ∷ [])

module _ {T : Type 0} ⦃e : OptionEnum T⦄ (style : T → Option (Text → Text)) where
  -- The argument for one option: none if it is not passed on, or not given.
  abbrev pub argument : OptionMap → T → Option Text
  argument m o = elim (style o) [
    | none ↦ none
    | some render ↦ Option.map render (get m (e.as_ref o))
  ]

  abbrev pub passed : OptionMap → List Text
  passed m = flatten (map (argument m) e.iter)

-- The statement that creates a view over a DuckDB reader function.
abbrev pub view_statement : Text → Text → Text → Text → List Text → Text
view_statement reader schema_name table_name select args = concat (
    str "CREATE VIEW IF NOT EXISTS "
    ∷ schema_name
    ∷ str "."
    ∷ table_name
    ∷ str " AS SELECT "
    ∷ select
    ∷ str " FROM "
    ∷ reader
    ∷ str "("
    ∷ join (str ", ") args
    ∷ str ")"
    ∷ [])

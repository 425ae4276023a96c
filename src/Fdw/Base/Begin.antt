-- ===== src/Fdw/Base/Begin.antt =====
-- src/fdw/base.rs: `begin_scan_impl`, which registers the view and builds the statement of the scan.
pub mod Scanned
use Prim.Native.Nat.{◌/◌, ◌%◌}
use pg_analytics.Prelude.{
  ℕ, ◌+◌, ◌-◌, Option, none, some, List, [], ◌∷◌, ◌++◌, map, ltb, if◌then◌else◌, flatten,
}
use pg_analytics.Text.{Text, str, concat, join}
use pg_analytics.Text.Decimal.{to_string}
use pg_analytics.Text.Decimal.Parse.{parse_u32}
use pg_analytics.Result.{Result, ok, error, ok_or}
use pg_analytics.Exec.{Exec, pure, lift, gets, ◌>>=◌, ◌>>◌}
use pg_analytics.Options.{OptionMap, get}
use pg_analytics.Duckdb.Engine.{Engine}
use pg_analytics.Fdw.Handler.{FdwHandler}
use pg_analytics.Fdw.Register.{register_duckdb_view}
use pg_analytics.Fdw.Base.{Column, Limit, Scan, on_fdw, on_globals}

-- A cell as the formatter meets it: the bytes of a `Bytea`, or the text that `Display` gives.
pub data Shown : Type 0 where
  bytea : List ℕ → Shown
  displayed : Text → Shown

-- `{:X}` of a number below 16.
abbrev hex_digit : ℕ → ℕ
hex_digit n = if ltb n 10 then b'0' + n else (b'A' + (n - 10))

abbrev hex_byte : ℕ → Text
hex_byte b = str "\\x" ++ hex_digit (b / 16) ∷ hex_digit (b % 16) ∷ []

-- `DuckDbFormatter::fmt_cell`
unfoldable pub fmt_cell : Shown → Text
fmt_cell (bytea v) = concat (str "'" ∷ join [] (map hex_byte v) ∷ str "'" ∷ [])
fmt_cell (displayed t) = t

-- What supabase-wrappers hands to a scan: conditions, which it writes out with a formatter of cells,
-- and sort keys.
pub record Pushdown : Type 1 where
  pub Qual : Type 0
  pub Sort : Type 0
  pub deparse_with_fmt : Qual → (Shown → Text) → Text
  pub deparse : Sort → Text
  -- The key of the table's oid, OPTS_TABLE_KEY.
  pub opts_table_key : Text

-- What PostgreSQL knows of a foreign table.
pub record ForeignTable : Type 0 where
  pub namespace : Text
  pub name : Text
  pub options : Result OptionMap
  pub handler : FdwHandler

-- `offset + count` on `i64` for values that are not negative, with the wrap-around of a release
-- build, and its text.
unfoldable pub real_limit : Limit → Text
real_limit limit =
    let sum = limit.offset + limit.count in
    if ltb sum 9223372036854775808
    then to_string sum
    else str "-" ++ to_string (18446744073709551616 - sum)

module _ (p : Pushdown) where
  open p use {Qual, Sort}

  abbrev targets_of : List Column → Text
  targets_of [] = str "*"
  targets_of (c ∷ columns) = join (str ", ") (map (λ x. x.name) (c ∷ columns))

  abbrev where_of : List Qual → Text
  where_of [] = []
  where_of (q ∷ quals) = concat (
      str " WHERE "
      ∷ join (str " AND ") (map (λ x. p.deparse_with_fmt x fmt_cell) (q ∷ quals))
      ∷ [])

  abbrev order_of : List Sort → Text
  order_of [] = []
  order_of (s ∷ sorts) =
      concat (str " ORDER BY " ∷ join (str ", ") (map p.deparse (s ∷ sorts)) ∷ [])

  abbrev limit_of : Option Limit → Text
  limit_of none = []
  limit_of (some limit) = concat (str " LIMIT " ∷ real_limit limit ∷ [])

  -- The statement, by the pushes on `sql`.
  unfoldable pub scan_statement :
      Text → Text → List Column → List Qual → List Sort → Option Limit → Text
  unfolding real_limit fmt_cell
  scan_statement schema_name table_name columns quals sorts limit =
      let sql = concat (
        str "SELECT "
        ∷ targets_of columns
        ∷ str " FROM "
        ∷ schema_name
        ∷ str "."
        ∷ table_name
        ∷ []) in
      ((sql ++ where_of quals) ++ order_of sorts) ++ limit_of limit

  module _ (e : Engine) (Cell : Type 0) (foreign_table : ℕ → ForeignTable) where
    unfoldable pub begin_scan :
        List Qual → List Column → List Sort → Option Limit → OptionMap → Exec (Scan e Cell) Unit
    unfolding scan_statement
    begin_scan quals columns sorts limit options = do
      oid_text ← lift (ok_or (get options p.opts_table_key) (error (str "table oid not found")))
      oid ← lift (parse_u32 oid_text)
      let table = foreign_table oid
      on_fdw e Cell (λ f. record f { target_columns = columns })
      user_mapping_options ← gets (λ s. s.fdw.user_mapping_options)
      table_options ← lift table.options
      on_globals e Cell (
          register_duckdb_view e table.name table.namespace table_options user_mapping_options
            table.handler)
      on_fdw e Cell (λ f. record f {
        sql = some (scan_statement table.namespace table.name columns quals sorts limit);
      })

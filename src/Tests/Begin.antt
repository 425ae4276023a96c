-- ===== src/Tests/Begin.antt =====
-- src/fdw/base.rs, src/hooks/query.rs: a scan from its begin, and statements of a text.
use pg_analytics.Prelude.{
  ℕ, true, Option, none, some, [], ◌∷◌, ◌++◌, ◌≡◌, ◌≢◌, ◌↔◌, All, length, refl, arith,
}
use pg_analytics.Text.{Text, str}
use pg_analytics.Text.Decimal.{to_string}
use pg_analytics.Result.{ok}
use pg_analytics.Exec.{◌>>◌}
use pg_analytics.Options.{OptionMap, get}
use pg_analytics.Fdw.Handler.{delta}
use pg_analytics.Fdw.Base.{Limit}
use pg_analytics.Fdw.Base.Begin.{
  Shown, bytea, displayed, Pushdown, ForeignTable, scan_statement, begin_scan,
}
use pg_analytics.Fdw.Base.Begin.Scanned.{fresh, statement, begin_scan-drain}
use pg_analytics.Fdw.Base.Drain.{drain, all_rows}
use pg_analytics.Hooks.World.{Relation}
use pg_analytics.Hooks.Query.{get_current_query, is_duckdb_query}
use pg_analytics.Hooks.Query.Statement.{IsOurs, get_current_query-eq, is_duckdb_query_iff}
use pg_analytics.Tests.Toy.{toy, read_number, no_session, number_column}
use pg_analytics.Tests.Register.{delta_map, registered, registers}

-- Conditions on the column `n` for equality with a cell, and sort keys as texts.
abbrev equalities : Pushdown
equalities = record {
  Qual = Shown;
  Sort = Text;
  deparse_with_fmt = λ cell fmt. str "n = " ++ fmt cell;
  deparse = λ s. s;
  opts_table_key = str "oid";
}

abbrev table_t : ℕ → ForeignTable
table_t oid = record {
  namespace = str "main";
  name = str "t";
  options = ok delta_map;
  handler = delta;
}

abbrev first_rows : Option Limit
first_rows = some (record { count = 10; offset = 5 })

abbrev scan_options : OptionMap
scan_options = (str "oid", to_string 16384) ∷ []

scan_sql :
    scan_statement equalities
      (str "main")
      (str "t")
      number_column
      (bytea (10 ∷ 255 ∷ []) ∷ displayed (str "7") ∷ [])
      (str "n asc" ∷ [])
      first_rows
    ≡ str "SELECT n FROM main.t WHERE n = '\\x0A\\xFF' AND n = 7 ORDER BY n asc LIMIT 15"
unfolding scan_statement str pg_analytics.Text.concat pg_analytics.Text.join to_string
scan_sql = refl

abbrev scan_text : Text
scan_text =
    statement equalities toy ℕ table_t read_number [] number_column [] first_rows scan_options 16384

begin_scan-drain_example :
    ((begin_scan equalities toy ℕ table_t [] number_column [] first_rows scan_options
        >> drain toy ℕ read_number 4)
      (fresh equalities toy ℕ table_t read_number no_session [] [])).0
    ≡ all_rows toy ℕ read_number number_column ((1 ∷ 2 ∷ []) ∷ (3 ∷ []) ∷ [])
unfolding get str pg_analytics.Text.same
begin_scan-drain_example =
    begin_scan-drain equalities toy ℕ table_t read_number [] number_column [] first_rows
      scan_options 16384 4 delta_map [] no_session registered [] scan_text
      ((1 ∷ 2 ∷ []) ∷ (3 ∷ []) ∷ []) registered.db refl (omega arith) refl registers refl refl
      (omega arith) (omega arith)

get_current_query-eq_example :
    (get_current_query
        (some (length (str "SELECT 1; ")))
        (length (str "SELECT 2"))
        (ok (str "SELECT 1; " ++ (str "SELECT 2" ++ str ";")))
      ≡ ok (str "SELECT 2"))
    × (get_current_query
          (some (length (str "SELECT 1; ")))
          0
          (ok (str "SELECT 1; " ++ str "SELECT 2"))
        ≡ ok (str "SELECT 2"))
    × (get_current_query none 8 (ok (str "SELECT 2")) ≡ ok (str "SELECT 2"))
unfolding str
get_current_query-eq_example =
    get_current_query-eq (str "SELECT 1; ") (str "SELECT 2") (str ";") 8 (omega arith)

abbrev delta_relation : Relation
delta_relation = record { is_foreign_table = true; handler_name = str "delta_fdw_handler" }

is_duckdb_query_iff_example :
    (is_duckdb_query (delta_relation ∷ []) ≡ true)
    ↔ ((delta_relation ∷ [] ≢ []) × All IsOurs (delta_relation ∷ []))
is_duckdb_query_iff_example = is_duckdb_query_iff (delta_relation ∷ [])

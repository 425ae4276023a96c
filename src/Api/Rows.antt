-- ===== src/Api/Rows.antt =====
-- `Statement::query_map` of DuckDB, with the typed getters of its rows, as src/api uses them.
use pg_analytics.Prelude.{ℕ, Bool, Option, List, map}
use pg_analytics.Text.{Text}
use pg_analytics.Result.{Result, ◌>>=◌ as bind_result}
use pg_analytics.Exec.{Exec, lift, ◌>>=◌}
use pg_analytics.Schema.Integers.{ℤ}
use pg_analytics.Duckdb.Engine.{Engine}
use pg_analytics.Duckdb.Connection.{Globals, prepare, unwrap_all}

module _ (e : Engine) where
  open e use {Db, Stmt}

  -- The rows of a statement, each of which may fail, and `row.get::<_, Option<T>>(i)` for the types
  -- that the code asks for; a value of DuckDB is given in its Debug form.
  pub record RowReader : Type 1 where
    pub Row : Type 0
    pub rows : Stmt → Db → Result (List (Result Row))
    pub get_string : Row → ℕ → Result (Option Text)
    pub get_i32 : Row → ℕ → Result (Option ℤ)
    pub get_i64 : Row → ℕ → Result (Option ℤ)
    pub get_bool : Row → ℕ → Result (Option Bool)
    pub get_value : Row → ℕ → Result (Option Text)

  module _ (r : RowReader) where
    open r use {Row, rows}

    -- `conn.prepare(sql)?.query_map([], f)?.map(|row| row.unwrap()).collect()`
    unfoldable pub query_map : {A : Type 0} → (Row → Result A) → Text → Exec (Globals e) (List A)
    unfolding prepare unwrap_all
    query_map f sql = do
      stmt ← prepare e sql
      found ← (λ g. (rows stmt g.db, g))
      lift (unwrap_all (map (λ row. bind_result row f) found))

-- ===== src/Duckdb/Engine.antt =====
-- DuckDB and Arrow as the extension uses them: the crates `duckdb` and `arrow` are not part of the
-- repository, so their types and functions are a parameter.
use pg_analytics.Prelude.{ℕ, Option, List}
use pg_analytics.Text.{Text}
use pg_analytics.Result.{Result}

pub record Engine : Type 1 where
  -- The database behind a connection, a prepared statement, and Arrow's record batches.
  pub Db : Type 0
  pub Stmt : Type 0
  pub Batch : Type 0
  pub Array : Type 0
  -- `Connection::open_in_memory`
  pub open_in_memory : Result Db
  -- `Connection::prepare`, which runs nothing.
  pub prepare : Text → Db → Result Stmt
  -- `Statement::query` on a catalog function or table: the rows, each of which may fail, with the
  -- columns as texts, none for NULL.
  pub query : Stmt → Db → Result (List (Result (List (Option Text))))
  -- `Statement::query_arrow`, with the batches that the stream will give.
  pub query_arrow : Stmt → Db → Result (List Batch) × Db
  -- `Connection::execute`
  pub execute : Text → Db → Result ℕ × Db
  -- `RecordBatch::num_rows` and `RecordBatch::column`, which panics out of range.
  pub num_rows : Batch → ℕ
  pub column : Batch → ℕ → Result Array

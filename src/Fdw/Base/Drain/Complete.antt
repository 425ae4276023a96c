-- ===== src/Fdw/Base/Drain/Complete.antt =====
-- src/fdw/base.rs: a scan gives every row of every batch once, in order.
use pg_analytics.Prelude.{
  ℕ, zero, suc, ◌+◌, ◌-◌, ◌<◌, true, Option, none, some, List, [], ◌∷◌, All, ◌≡◌, refl, arith, inl,
  inr, ap,
}
use pg_analytics.Text.{Text}
use pg_analytics.Result.{Failure, Result, ok, err, ◌>>=◌, Result-cases}
use pg_analytics.Options.{OptionMap}
use pg_analytics.Duckdb.Engine.{Engine}
use pg_analytics.Duckdb.Connection.{Globals, create_arrow, get_next_batch}
use pg_analytics.Fdw.Base.{new, used_up, Column, GetCell, Row, Scan, iter_scan}
use pg_analytics.Fdw.Base.Drain.{
  drain, cells, rows_then, all_rows, total_rows, push_cells_ok, push_cells_err,
}

module _ (e : Engine) (Cell : Type 0) (get_cell : GetCell e Cell) where
  open e use {Db, Stmt, Batch, num_rows, column}

  -- What DuckDB's stream gives: it ends instead of giving a batch without rows.
  abbrev pub NonEmpty : Batch → Type 0
  NonEmpty batch = 0 < num_rows batch

  -- A scan that has started.
  module _ (db : Db) (statement : Option Stmt) (sql : Option Text) (targets : List Column)
      (options : OptionMap) where
    abbrev reading : Option Batch → ℕ → List Batch → Row e Cell → Scan e Cell
    reading current index batches row = record {
      globals = record { db = db; statement = statement; arrow = some batches };
      fdw = record {
        current_batch = current;
        current_batch_index = index;
        scan_started = true;
        sql = sql;
        target_columns = targets;
        user_mapping_options = options;
      };
      row = row;
    }

    drain_row :
        (fuel : ℕ) (b : Batch) (i : ℕ) (bs : List Batch) (r row : Row e Cell)
        → i < num_rows b
        → cells e Cell get_cell b i 0 targets ≡ ok row
        → (drain e Cell get_cell (suc fuel) (reading (some b) i bs r)).0 ≡ (
            (drain e Cell get_cell fuel (reading (some b) (i + 1) bs row)).0 >>= λ rows.
            ok (row ∷ rows))
    unfolding drain iter_scan
    drain_row fuel b i bs r row lt h =
        ground (arith, push_cells_ok e Cell get_cell b i 0 targets (reading (some b) i bs []) row h)

    drain_failure :
        (fuel : ℕ) (b : Batch) (i : ℕ) (bs : List Batch) (r : Row e Cell) (f : Failure)
        → i < num_rows b
        → cells e Cell get_cell b i 0 targets ≡ err f
        → (drain e Cell get_cell (suc fuel) (reading (some b) i bs r)).0 ≡ err f
    unfolding drain iter_scan
    drain_failure fuel b i bs r f lt h =
        ground (arith, push_cells_err e Cell get_cell b i 0 targets (reading (some b) i bs []) f h)

    abbrev rest_rows : List Batch → Result (List (Row e Cell))
    rest_rows = all_rows e Cell get_cell targets

    -- One call more than for the rows behind the row at the index.
    drain_step :
        (fuel : ℕ) (b : Batch) (i k : ℕ) (bs : List Batch) (r : Row e Cell)
        → i < num_rows b
        → ((row : Row e Cell)
            → (drain e Cell get_cell fuel (reading (some b) (i + 1) bs row)).0
              ≡ rows_then e Cell get_cell targets b (i + 1) k (rest_rows bs))
        → (drain e Cell get_cell (suc fuel) (reading (some b) i bs r)).0
          ≡ rows_then e Cell get_cell targets b i (suc k) (rest_rows bs)
    unfolding rows_then
    drain_step fuel b i k bs r lt ih = elim (Result-cases (cells e Cell get_cell b i 0 targets)) [
      | inl (row, c) ↦
          rw (drain_row fuel b i bs r row lt c, c)
            (ap (λ x. x >>= λ rows. ok (row ∷ rows)) (ih row))
      | inr (f, c) ↦ rw (drain_failure fuel b i bs r f lt c, c)
    ]

    -- The call that finds the current batch used up goes on with the next one.
    drain_next :
        (fuel : ℕ) (current : Option Batch) (i : ℕ) (b : Batch) (bs : List Batch) (r : Row e Cell)
        → used_up e Cell current i ≡ true
        → 0 < num_rows b
        → drain e Cell get_cell (suc fuel) (reading current i (b ∷ bs) r)
          ≡ drain e Cell get_cell (suc fuel) (reading (some b) 0 bs r)
    unfolding drain iter_scan get_next_batch
    drain_next fuel current i b bs r used n = ground arith

    drain_end :
        (fuel : ℕ) (current : Option Batch) (i : ℕ) (r : Row e Cell)
        → used_up e Cell current i ≡ true
        → (drain e Cell get_cell (suc fuel) (reading current i [] r)).0 ≡ ok []
    unfolding drain iter_scan get_next_batch
    drain_end fuel current i r used = ground arith

    all_rows_cons :
        (b : Batch) (bs : List Batch) (k : ℕ)
        → num_rows b ≡ k
        → rest_rows (b ∷ bs) ≡ rows_then e Cell get_cell targets b 0 k (rest_rows bs)
    unfolding all_rows
    all_rows_cons b bs k h = rw h

    first_rows :
        (fuel : ℕ) (current : Option Batch) (i : ℕ) (b : Batch) (bs : List Batch) (r : Row e Cell)
        → used_up e Cell current i ≡ true
        → 0 < num_rows b
        → ((row : Row e Cell)
            → (drain e Cell get_cell fuel (reading (some b) (0 + 1) bs row)).0
              ≡ rows_then e Cell get_cell targets b (0 + 1) (num_rows b - 1) (rest_rows bs))
        → (drain e Cell get_cell (suc fuel) (reading current i (b ∷ bs) r)).0 ≡ rest_rows (b ∷ bs)
    first_rows fuel current i b bs r used n rest =
        rw
          (
            drain_next fuel current i b bs r used n,
            all_rows_cons b bs (suc (num_rows b - 1)) (omega arith),
          )
          (drain_step fuel b 0 (num_rows b - 1) bs r n rest)

    drain-reading :
        (fuel : ℕ) (b : Batch) (i k : ℕ) (bs : List Batch) (r : Row e Cell)
        → i + k ≡ num_rows b
        → All NonEmpty bs
        → k + total_rows e Cell get_cell bs < fuel
        → (drain e Cell get_cell fuel (reading (some b) i bs r)).0
          ≡ rows_then e Cell get_cell targets b i k (rest_rows bs)
    unfolding rows_then all_rows
    drain-reading zero b i k bs r h ne enough = absurd (omega arith)
    drain-reading (suc fuel) b i zero [] r h ne enough = drain_end fuel (some b) i r (ground arith)
    drain-reading (suc fuel) b i zero (b' ∷ bs) r h (n, ne) enough =
        let rest = λ (row : Row e Cell).
          drain-reading fuel b' (0 + 1) (num_rows b' - 1) bs row (omega arith) ne (omega arith) in
        first_rows fuel (some b) i b' bs r (ground arith) n rest
    drain-reading (suc fuel) b i (suc k) bs r h ne enough =
        drain_step fuel b i k bs r (omega arith)
          (λ row. drain-reading fuel b (i + 1) k bs row (omega arith) ne (omega arith))

  -- What `begin_scan` leaves of a new wrapper: the cached statement and columns, no batch yet.
  abbrev pub begun : Globals e → Text → List Column → OptionMap → Row e Cell → Scan e Cell
  begun g sql targets options row = record {
    globals = g;
    fdw = record (new e Cell options) { sql = some sql; target_columns = targets };
    row = row;
  }

  -- After `begin_scan`, the first call has the effect of starting the stream.
  drain_first :
      (fuel : ℕ) (g : Globals e) (sql : Text) (targets : List Column) (options : OptionMap)
      (row : Row e Cell) (stmt : Stmt) (batches : List Batch) (db : Db)
      → e.prepare sql g.db ≡ ok stmt
      → e.query_arrow stmt g.db ≡ (ok batches, db)
      → drain e Cell get_cell (suc fuel) (begun g sql targets options row)
        ≡ drain e Cell get_cell
            (suc fuel)
            (reading db (some stmt) (some sql) targets options none 0 batches row)
  unfolding drain iter_scan create_arrow new
  drain_first fuel g sql targets options row stmt batches db p q = ground (arith, p, q)

  -- If DuckDB prepares the cached statement and starts its stream, and no batch of the stream is
  -- without rows, then a client that calls `iter_scan` until it returns `None`, with a bound on the
  -- calls above the number of rows, gets every row of every batch once, in order, with the cells of
  -- the target columns, or the first failure of reading a cell.
  pub drain-begun :
      (fuel : ℕ) (g : Globals e) (sql : Text) (targets : List Column) (options : OptionMap)
      (row : Row e Cell) (stmt : Stmt) (batches : List Batch) (db : Db)
      → e.prepare sql g.db ≡ ok stmt
      → e.query_arrow stmt g.db ≡ (ok batches, db)
      → All NonEmpty batches
      → total_rows e Cell get_cell batches < fuel
      → (drain e Cell get_cell fuel (begun g sql targets options row)).0
        ≡ all_rows e Cell get_cell targets batches
  drain-begun zero g sql targets options row stmt batches db p q ne enough = absurd (omega arith)
  drain-begun (suc fuel) g sql targets options row stmt [] db p q ne enough =
      rw (drain_first fuel g sql targets options row stmt [] db p q) (
        unfold all_rows in drain_end db (some stmt) (some sql) targets options fuel none 0 row refl)
  drain-begun (suc fuel) g sql targets options row stmt (b ∷ bs) db p q (n, ne) enough =
      let rest = λ (r : Row e Cell).
        drain-reading db (some stmt) (some sql) targets options fuel b (0 + 1) (num_rows b - 1) bs r
          (omega arith) ne (omega arith) in
      rw (drain_first fuel g sql targets options row stmt (b ∷ bs) db p q)
        (first_rows db (some stmt) (some sql) targets options fuel none 0 b bs row refl n rest)

-- ===== src/Fdw/Base/Begin/Scanned.antt =====
-- src/fdw/base.rs: a whole scan, from `begin_scan` to the last row.
use pg_analytics.Prelude.{ℕ, ◌<◌, Option, some, List, All, ◌≡◌, refl}
use pg_analytics.Text.{Text}
use pg_analytics.Text.Decimal.{to_string}
use pg_analytics.Text.Decimal.Parse.{parse_u32-to_string, u32_bound}
use pg_analytics.Result.{ok}
use pg_analytics.Exec.{◌>>◌}
use pg_analytics.Options.{OptionMap, get}
use pg_analytics.Duckdb.Engine.{Engine}
use pg_analytics.Duckdb.Connection.{Globals}
use pg_analytics.Fdw.Register.{register_duckdb_view}
use pg_analytics.Fdw.Base.{Column, Limit, GetCell, Row, Scan, new}
use pg_analytics.Fdw.Base.Begin.{Pushdown, ForeignTable, scan_statement, begin_scan}
use pg_analytics.Fdw.Base.Drain.{drain, all_rows, total_rows}
use pg_analytics.Fdw.Base.Drain.Complete.{NonEmpty, begun, drain-begun}

module _ (p : Pushdown) (e : Engine) (Cell : Type 0) (foreign_table : ℕ → ForeignTable)
    (get_cell : GetCell e Cell) where
  open p use {Qual, Sort}
  open e use {Stmt, Batch}

  -- A new wrapper, before the scan.
  abbrev pub fresh : Globals e → OptionMap → Row e Cell → Scan e Cell
  fresh g user_mapping_options row = record {
    globals = g;
    fdw = new e Cell user_mapping_options;
    row = row;
  }

  module _ (quals : List Qual) (columns : List Column) (sorts : List Sort) (limit : Option Limit)
      (options : OptionMap) (oid : ℕ) where
    -- The statement for the table with the oid.
    abbrev pub statement : Text
    statement =
        scan_statement p (foreign_table oid).namespace (foreign_table oid).name columns quals sorts
          limit

    -- If the options hold the table's oid as a decimal number, the table's options can be read and
    -- its view is registered, then `begin_scan` on a new wrapper caches the columns and the statement
    -- and changes nothing else.
    pub begin_scan-begun :
        (table_options user_mapping_options : OptionMap) (g g' : Globals e) (row : Row e Cell)
        → get options p.opts_table_key ≡ some (to_string oid)
        → oid < u32_bound
        → (foreign_table oid).options ≡ ok table_options
        → register_duckdb_view e
            (foreign_table oid).name
            (foreign_table oid).namespace
            table_options
            user_mapping_options
            (foreign_table oid).handler
            g
          ≡ (ok tt, g')
        → begin_scan p e Cell foreign_table quals columns sorts limit options
            (fresh g user_mapping_options row)
          ≡ (ok tt, begun e Cell get_cell g' statement columns user_mapping_options row)
    unfolding begin_scan new
    begin_scan-begun m u g g' row key small readable registered =
        rw (key, parse_u32-to_string oid small, readable, registered) refl

    -- If the options hold the table's oid as a decimal number, the table's options can be read, its
    -- view is registered, DuckDB prepares the statement for the scan and starts its stream, and no
    -- batch of the stream is without rows, then `begin_scan` on a new wrapper and `iter_scan` until
    -- it returns `None`, with a bound on the calls above the number of rows, give every row of every
    -- batch once, in order, with the cells of the columns that were asked for, or the first failure
    -- of reading a cell.
    pub begin_scan-drain :
        (fuel : ℕ) (table_options user_mapping_options : OptionMap) (g g' : Globals e)
        (row : Row e Cell) (stmt : Stmt) (batches : List Batch) (db : e.Db)
        → get options p.opts_table_key ≡ some (to_string oid)
        → oid < u32_bound
        → (foreign_table oid).options ≡ ok table_options
        → register_duckdb_view e
            (foreign_table oid).name
            (foreign_table oid).namespace
            table_options
            user_mapping_options
            (foreign_table oid).handler
            g
          ≡ (ok tt, g')
        → e.prepare statement g'.db ≡ ok stmt
        → e.query_arrow stmt g'.db ≡ (ok batches, db)
        → All (NonEmpty e Cell get_cell) batches
        → total_rows e Cell get_cell batches < fuel
        → ((begin_scan p e Cell foreign_table quals columns sorts limit options
              >> drain e Cell get_cell fuel)
            (fresh g user_mapping_options row)).0
          ≡ all_rows e Cell get_cell columns batches
    begin_scan-drain fuel m u g g' row stmt batches db key small readable registered prepared
          started full enough =
        rw (begin_scan-begun m u g g' row key small readable registered) (
          drain-begun e Cell get_cell fuel g' statement columns u row stmt batches db prepared
            started full enough)

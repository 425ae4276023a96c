-- ===== src/Fdw/Base/Drain/Again.antt =====
-- src/fdw/base.rs: what `iter_scan` does when it is called again behind the end of the stream.
use pg_analytics.Prelude.{◌≤◌, ◌<◌, true, none, some, [], ◌++◌, ◌≡◌, arith, ap}
use pg_analytics.Result.{ok}
use pg_analytics.Duckdb.Engine.{Engine}
use pg_analytics.Duckdb.Connection.{get_next_batch}
use pg_analytics.Fdw.Base.{GetCell, Row, Scan, iter_scan}
use pg_analytics.Fdw.Base.Drain.{cells, push_cells_ok}

module _ (e : Engine) (Cell : Type 0) (get_cell : GetCell e Cell) where
  open e use {Batch, num_rows}

  abbrev rewound : Scan e Cell → Scan e Cell
  rewound s = record s { fdw = record (s.fdw) { current_batch_index = 0 } }

  first_call :
      (s : Scan e Cell) (batch : Batch)
      → s.fdw.scan_started ≡ true
      → s.fdw.current_batch ≡ some batch
      → s.globals.arrow ≡ some []
      → num_rows batch ≤ s.fdw.current_batch_index
      → iter_scan e Cell get_cell s ≡ (ok none, rewound s)
  unfolding iter_scan get_next_batch
  first_call s batch started current left used = ground arith

  second_call :
      (s : Scan e Cell) (batch : Batch) (row : Row e Cell)
      → s.fdw.scan_started ≡ true
      → s.fdw.current_batch ≡ some batch
      → 0 < num_rows batch
      → cells e Cell get_cell batch 0 0 s.fdw.target_columns ≡ ok row
      → iter_scan e Cell get_cell (rewound s) ≡ (
        ok (some tt),
        record s { fdw = record (s.fdw) { current_batch_index = 1 }; row = s.row ++ row },
      )
  unfolding iter_scan
  second_call s batch row started current n readable =
      ground (arith, push_cells_ok e Cell get_cell batch 0 0 s.fdw.target_columns (rewound s) row)

  -- Behind the end of a stream whose last batch had rows that can be read, one more call returns
  -- `Some` and pushes the first row of that batch again.
  pub iter_scan_behind_end :
      (s : Scan e Cell) (batch : Batch) (row : Row e Cell)
      → s.fdw.scan_started ≡ true
      → s.fdw.current_batch ≡ some batch
      → s.globals.arrow ≡ some []
      → num_rows batch ≤ s.fdw.current_batch_index
      → 0 < num_rows batch
      → cells e Cell get_cell batch 0 0 s.fdw.target_columns ≡ ok row
      → let s' = (iter_scan e Cell get_cell s).1 in
        ((iter_scan e Cell get_cell s).0 ≡ ok none)
        × ((iter_scan e Cell get_cell s').0 ≡ ok (some tt))
        × ((iter_scan e Cell get_cell s').1.row ≡ s.row ++ row)
  iter_scan_behind_end s batch row started current left used n readable = (
    ap (λ x. x.0) (first_call s batch started current left used),
    rw (first_call s batch started current left used)
        (ap (λ x. x.0) (second_call s batch row started current n readable)),
    rw (first_call s batch started current left used)
        (ap (λ x. x.1.row) (second_call s batch row started current n readable)),
  )

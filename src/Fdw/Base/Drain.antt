-- ===== src/Fdw/Base/Drain.antt =====
-- src/fdw/base.rs: what a client gets that calls `iter_scan` until it returns `None`, against the
-- rows of the batches that DuckDB gives.
pub mod Complete
pub mod Again
use pg_analytics.Prelude.{
  ℕ, zero, suc, ◌+◌, Option, none, some, List, [], ◌∷◌, ◌++◌, ◌≡◌, arith, append_assoc, append-nil,
  inl, inr,
}
use pg_analytics.Result.{Failure, Result, ok, err, error, ◌>>=◌, Result-cases, bind-eq-ok}
use pg_analytics.Exec.{Exec}
use pg_analytics.Duckdb.Engine.{Engine}
use pg_analytics.Fdw.Base.{Column, GetCell, Row, Scan, push_cells, iter_scan}

module _ (e : Engine) (Cell : Type 0) (get_cell : GetCell e Cell) where
  open e use {Db, Stmt, Batch, num_rows, column}

  -- The client: an empty row for each call, until there is no more. The fuel bounds the calls.
  abbrev after_call :
      (Scan e Cell → Result (List (Row e Cell)) × Scan e Cell)
      → Result (Option (Unit {0}))
      → Scan e Cell
      → Result (List (Row e Cell)) × Scan e Cell
  after_call next (err f) s = (err f, s)
  after_call next (ok none) s = (ok [], s)
  after_call next (ok (some u)) s = let (rows, s') = next s in (rows >>= λ rs. ok (s.row ∷ rs), s')

  unfoldable pub drain : ℕ → Exec (Scan e Cell) (List (Row e Cell))
  drain zero s = (err (error []), s)
  drain (suc fuel) s =
      let (r, s') = iter_scan e Cell get_cell (record s { row = [] }) in
      after_call (drain fuel) r s'

  -- The cells of one row of a batch, from a column on.
  unfoldable pub cells : Batch → ℕ → ℕ → List Column → Result (Row e Cell)
  cells batch index i [] = ok []
  cells batch index i (target ∷ targets) = column batch i >>= λ array.
      get_cell array index target.type_oid target.name >>= λ cell.
      cells batch index (suc i) targets >>= λ rest. ok ((target.name, cell) ∷ rest)

  module _ (targets : List Column) where
    -- `count` rows of a batch from an index on, and other rows behind them.
    unfoldable pub rows_then :
        Batch → ℕ → ℕ → Result (List (Row e Cell)) → Result (List (Row e Cell))
    rows_then batch index zero rest = rest
    rows_then batch index (suc count) rest = cells batch index 0 targets >>= λ row.
        rows_then batch (index + 1) count rest >>= λ rows. ok (row ∷ rows)

    -- Every row of every batch, in order; the first failure ends it.
    unfoldable pub all_rows : List Batch → Result (List (Row e Cell))
    unfolding rows_then
    all_rows [] = ok []
    all_rows (batch ∷ batches) = rows_then batch 0 (num_rows batch) (all_rows batches)

  abbrev pub total_rows : List Batch → ℕ
  total_rows [] = 0
  total_rows (batch ∷ batches) = num_rows batch + total_rows batches

  pub push_cells_ok :
      (batch : Batch) (index i : ℕ) (targets : List Column) (s : Scan e Cell) (row : Row e Cell)
      → cells batch index i targets ≡ ok row
      → push_cells e Cell get_cell batch index i targets s
        ≡ (ok tt, record s { row = s.row ++ row })
  unfolding push_cells cells
  push_cells_ok batch index i [] s row h = ground (arith, append-nil s.row)
  push_cells_ok batch index i (t ∷ ts) s row h =
      let (array, ea, h₁) = bind-eq-ok (column batch i) _ h in
      let (cell, ec, h₂) = bind-eq-ok (get_cell array index t.type_oid t.name) _ h₁ in
      let (rest, er, h₃) = bind-eq-ok (cells batch index (suc i) ts) _ h₂ in
      let s' : Scan e Cell = record s { row = s.row ++ (t.name, cell) ∷ [] } in
      let ih = push_cells_ok batch index (suc i) ts s' rest er in
      ground (arith, ea, ec, h₃, ih, append_assoc s.row ((t.name, cell) ∷ []) rest)

  pub push_cells_err :
      (batch : Batch) (index i : ℕ) (targets : List Column) (s : Scan e Cell) (f : Failure)
      → cells batch index i targets ≡ err f
      → (push_cells e Cell get_cell batch index i targets s).0 ≡ err f
  unfolding push_cells cells
  push_cells_err batch index i [] s f h = cc
  push_cells_err batch index i (t ∷ ts) s f h = elim (Result-cases (column batch i)) [
    | inr (g, ea) ↦ ground (arith, ea)
    | inl (array, ea) ↦ elim (Result-cases (get_cell array index t.type_oid t.name)) [
      | inr (g, ec) ↦ ground (arith, ea, ec)
      | inl (cell, ec) ↦
          let s' : Scan e Cell = record s { row = s.row ++ (t.name, cell) ∷ [] } in
          let ih = push_cells_err batch index (suc i) ts s' f in ground (arith, ea, ec, ih)
    ]
  ]

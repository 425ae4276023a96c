-- ===== src/Tests/Scan.antt =====
-- src/fdw/base.rs: a scan of two batches by a new wrapper, and a call behind its end.
use pg_analytics.Prelude.{ℕ, true, none, some, [], ◌∷◌, ◌≡◌, refl, arith, List, zero, suc}
use pg_analytics.Text.{Text, str}
use pg_analytics.Result.{ok, Result, err, panic}
use pg_analytics.Fdw.Base.{Scan, iter_scan, GetCell}
use pg_analytics.Fdw.Base.Drain.{drain, cells, rows_then, all_rows}
use pg_analytics.Fdw.Base.Drain.Complete.{begun, drain-begun}
use pg_analytics.Fdw.Base.Drain.Again.{iter_scan_behind_end}
use pg_analytics.Tests.Toy.{toy, read_number, number_column}
use pg_analytics.Duckdb.Engine.{Engine}
use pg_analytics.Duckdb.Connection.{Globals}
use pg_analytics.Schema.Integers.{ℤ, pos, negsuc}
use pg_analytics.Schema.Cell.Cells.{Cell, i32_cell}
use pg_analytics.Schema.Cell.Get.{get_cell}
use pg_analytics.Tests.Arrays.{ToyArray, i64s, toy_libraries}

abbrev select_all : Text
select_all = str "SELECT * FROM public.t"

-- Two batches of one column of 64-bit integers, which are read as cells of a column of type `INT4`.
abbrev first_batch : List ToyArray
first_batch = i64s (some (pos 5000000000) ∷ none ∷ []) ∷ []

abbrev second_batch : List ToyArray
second_batch = i64s (some (negsuc 6) ∷ []) ∷ []

abbrev rows_in : List ToyArray → ℕ
rows_in [] = 0
rows_in (array ∷ arrays) = toy_libraries.len array

abbrev array_at : List ToyArray → ℕ → Result ToyArray
array_at [] i = err (panic (str "index out of bounds"))
array_at (array ∷ arrays) zero = ok array
array_at (array ∷ arrays) (suc i) = array_at arrays i

abbrev arrow_toy : Engine
arrow_toy = record {
  Db = List Text;
  Stmt = Text;
  Batch = List ToyArray;
  Array = ToyArray;
  open_in_memory = ok [];
  prepare = λ sql db. ok sql;
  query = λ stmt db. ok [];
  query_arrow = λ stmt db. (ok (first_batch ∷ second_batch ∷ []), db);
  execute = λ sql db. (ok 0, sql ∷ db);
  num_rows = rows_in;
  column = array_at;
}

abbrev ToyCell : Type 0
ToyCell = Cell toy_libraries

abbrev read_cell : GetCell arrow_toy ToyCell
read_cell = get_cell toy_libraries

abbrev arrow_session : Globals arrow_toy
arrow_session = record { db = []; statement = none; arrow = none }

-- The three rows that the scan gives: a number that wrapped around, a null, and a number.
drain_begun_rows :
    all_rows arrow_toy ToyCell read_cell number_column (first_batch ∷ second_batch ∷ [])
    ≡ ok (
        ((str "n", some (i32_cell (pos 705032704))) ∷ [])
        ∷ ((str "n", none) ∷ [])
        ∷ ((str "n", some (i32_cell (negsuc 6))) ∷ [])
        ∷ [])
unfolding all_rows rows_then cells str get_cell pg_analytics.Schema.Cell.Get.get_cell_of
    pg_analytics.Schema.Cell.Numbers.get_int4 pg_analytics.Schema.Cell.Values.get_primitive_value
    pg_analytics.Schema.Integers.cast
drain_begun_rows = refl

drain-begun_example :
    (drain arrow_toy ToyCell read_cell 4
      (begun arrow_toy ToyCell read_cell arrow_session select_all number_column [] [])).0
    ≡ all_rows arrow_toy ToyCell read_cell number_column (first_batch ∷ second_batch ∷ [])
drain-begun_example =
    drain-begun arrow_toy ToyCell read_cell 4 arrow_session select_all number_column [] []
      select_all (first_batch ∷ second_batch ∷ []) [] refl refl (omega arith) (omega arith)

-- The scan when its last batch is used up.
abbrev at_end : Scan toy ℕ
at_end = record {
  globals = record { db = []; statement = some select_all; arrow = some [] };
  fdw = record {
    current_batch = some (3 ∷ []);
    current_batch_index = 1;
    scan_started = true;
    sql = some select_all;
    target_columns = number_column;
    user_mapping_options = [];
  };
  row = [];
}

abbrev behind_end : Scan toy ℕ
behind_end = (iter_scan toy ℕ read_number at_end).1

iter_scan_behind_end_example :
    ((iter_scan toy ℕ read_number at_end).0 ≡ ok none)
    × ((iter_scan toy ℕ read_number behind_end).0 ≡ ok (some tt))
    × ((iter_scan toy ℕ read_number behind_end).1.row ≡ (str "n", some 3) ∷ [])
unfolding cells
iter_scan_behind_end_example =
    iter_scan_behind_end toy ℕ read_number at_end (3 ∷ []) ((str "n", some 3) ∷ []) refl refl refl
      (omega arith) (omega arith) refl

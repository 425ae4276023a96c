-- ===== src/Tests/Cells.antt =====
-- The reading of cells on small arrays.
use Prim.Native.Nat.{◌*◌}
use pg_analytics.Prelude.{◌≡◌, ◌≤◌, ◌↔◌, none, some, [], ◌∷◌, arith, refl}
use pg_analytics.Text.{Text, str}
use pg_analytics.Result.{ok, err, panic}
use pg_analytics.Schema.Integers.{ℤ, pos, negsuc, InRange, times}
use pg_analytics.Schema.Integers.Casts.{Congruent}
use pg_analytics.Schema.Cell.Types.{i64, utf8, large_utf8}
use pg_analytics.Schema.Cell.Cells.{i32_cell, interval_cell, jsonb_cell, data_type_mismatch}
use pg_analytics.Schema.Cell.Nested.{get_list_value, list_fueled, list_body}
use pg_analytics.Schema.Cell.Get.{get_cell}
use pg_analytics.Schema.Cell.Integers.{int4, get_cell-Congruent, half_of}
use pg_analytics.Schema.Cell.Listed.Rejected.{get_cell-rejected}
use pg_analytics.Schema.Cell.Listed.Read.{get_cell-null}
use pg_analytics.Schema.Cell.Lists.{list_fueled-enough}
use pg_analytics.Schema.Cell.Intervals.{
  get_cell-day_time, get_cell-month_day_nano, IsTruncated, interval_of, magnitude,
}
use pg_analytics.Schema.Cell.Failures.{
  get_cell-i64_as_int2, get_cell-large_utf8_list, not_a_text_array,
}
use pg_analytics.Tests.Arrays.{
  toy_libraries, toy-ArrowLaws, ToyArray, i64s, texts, day_times, month_day_nanos, i64_row_rows,
  large_text_rows, view_of, rows_of, large_texts,
}

-- Five thousand million, which no `i32` holds, and a null.
abbrev wide : ToyArray
wide = i64s (some (pos 5000000000) ∷ none ∷ some (negsuc 6) ∷ [])

get_cell-wide : get_cell toy_libraries wide 0 23 (str "n") ≡ ok (some (i32_cell (pos 705032704)))
unfolding get_cell pg_analytics.Schema.Cell.Get.get_cell_of
    pg_analytics.Schema.Cell.Numbers.get_int4 pg_analytics.Schema.Cell.Values.get_primitive_value
    pg_analytics.Schema.Integers.cast
get_cell-wide = refl

get_cell-Congruent_example :
    (w : ℤ) × (get_cell toy_libraries wide 0 23 (str "n") ≡ ok (some (i32_cell w)))
    × InRange (half_of int4) w
    × Congruent (2 * half_of int4) (pos 5000000000) w
get_cell-Congruent_example =
    get_cell-Congruent toy_libraries int4 i64 wide 0 23 (str "n") (pos 5000000000) refl refl refl
      (omega arith)
      (view_of (some (pos 5000000000) ∷ none ∷ some (negsuc 6) ∷ []), refl, refl, refl)

get_cell-rejected_example :
    get_cell toy_libraries (texts (some (str "7") ∷ [])) 0 23 (str "n")
    ≡ err (data_type_mismatch toy_libraries (str "n") utf8 23)
get_cell-rejected_example =
    get_cell-rejected toy_libraries (texts (some (str "7") ∷ [])) 0 23 (str "n") refl refl

get_cell-null_example : get_cell toy_libraries wide 1 23 (str "n") ≡ ok none
get_cell-null_example = get_cell-null toy_libraries wide 1 23 (str "n") refl refl

-- One row of two rows.
abbrev rows_of_rows : ToyArray
rows_of_rows = i64_row_rows (some (some (some (pos 1) ∷ none ∷ []) ∷ some [] ∷ []) ∷ [])

get_cell-rows_of_rows :
    get_cell toy_libraries rows_of_rows 0 3802 (str "n")
    ≡ ok (some (jsonb_cell (str "[[1,null],[]]")))
unfolding get_cell pg_analytics.Schema.Cell.Get.get_cell_of
    pg_analytics.Schema.Cell.Documents.get_jsonb get_list_value list_fueled list_body
    pg_analytics.Schema.Cell.Nested.list_of pg_analytics.Schema.Cell.Nested.collect
    pg_analytics.Schema.Cell.Nested.list_depth
    pg_analytics.Schema.Cell.Values.get_primitive_list_value str pg_analytics.Text.join
    pg_analytics.Text.Decimal.to_string
get_cell-rows_of_rows = refl

list_fueled-enough_example :
    (list_fueled toy_libraries (ok none) 3 rows_of_rows 0
      ≡ get_list_value toy_libraries rows_of_rows 0)
    × (list_fueled toy_libraries (ok none) 3 rows_of_rows 0
        ≡ list_body toy_libraries (get_list_value toy_libraries) rows_of_rows 0)
unfolding pg_analytics.Schema.Cell.Nested.list_depth
list_fueled-enough_example =
    list_fueled-enough toy_libraries toy-ArrowLaws (ok none) 3 rows_of_rows 0 (omega arith)

-- One day and 2147484 milliseconds.
abbrev long_time : ToyArray
long_time = day_times (some (pos 1, pos 2147484) ∷ [])

get_cell-long_time :
    get_cell toy_libraries long_time 0 1186 (str "n")
    ≡ ok (some (interval_cell (pos 0, pos 1, negsuc 2147483295)))
unfolding get_cell pg_analytics.Schema.Cell.Get.get_cell_of
    pg_analytics.Schema.Cell.Temporal.get_interval
    pg_analytics.Schema.Cell.Values.get_interval_day_time_value pg_analytics.Schema.Integers.cast
get_cell-long_time = refl

get_cell-day_time_example :
    (micros : ℤ) × (get_cell toy_libraries long_time 0 1186 (str "n")
      ≡ interval_of toy_libraries (pos 0) (pos 1) micros)
    × ((micros ≡ times 1000 (pos 2147484)) ↔ (magnitude (pos 2147484) ≤ 2147483))
get_cell-day_time_example =
    get_cell-day_time toy_libraries long_time 0 1186 (str "n") (pos 1) (pos 2147484) refl refl
      (view_of (some (pos 1, pos 2147484) ∷ []), refl, refl, refl)

abbrev nanos : ToyArray
nanos = month_day_nanos (some (pos 2, pos 3, negsuc 1500) ∷ [])

get_cell-month_day_nano_example :
    (micros : ℤ) × (get_cell toy_libraries nanos 0 1186 (str "n")
      ≡ interval_of toy_libraries (pos 2) (pos 3) micros)
    × IsTruncated 1000 (negsuc 1500) micros
get_cell-month_day_nano_example =
    get_cell-month_day_nano toy_libraries nanos 0 1186 (str "n") (pos 2) (pos 3) (negsuc 1500) refl
      refl (view_of (some (pos 2, pos 3, negsuc 1500) ∷ []), refl, refl, refl)

get_cell-i64_as_int2_example :
    get_cell toy_libraries wide 1 21 (str "n") ≡ err (panic (str "primitive array"))
get_cell-i64_as_int2_example =
    get_cell-i64_as_int2 toy_libraries toy-ArrowLaws wide 1 21 (str "n") refl refl

abbrev large_rows : ToyArray
large_rows = large_text_rows (some (some (str "a") ∷ []) ∷ [])

get_cell-large_utf8_list_example :
    get_cell toy_libraries large_rows 0 3802 (str "n") ≡ err (not_a_text_array toy_libraries)
get_cell-large_utf8_list_example =
    get_cell-large_utf8_list toy_libraries toy-ArrowLaws large_rows
      (rows_of large_utf8 large_texts (some (some (str "a") ∷ []) ∷ [])) 0 3802 0 (str "n") refl
      refl refl refl refl

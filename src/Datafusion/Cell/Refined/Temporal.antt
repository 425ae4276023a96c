-- ===== src/Datafusion/Cell/Refined/Temporal.antt =====
-- The branches of the two `get_cell` for dates and times.
use pg_analytics.Prelude.{ℕ, arith}
use pg_analytics.Text.{Text}
use pg_analytics.Result.{ok}
use pg_analytics.Schema.Cell.Types.{
  DataType, date32, date64, time32, time64, timestamp, date32_array, date64_array, time32_array,
  time64_array, timestamp_array, second, millisecond, microsecond, nanosecond,
}
use pg_analytics.Schema.Cell.Libraries.{Libraries}
use pg_analytics.Schema.Cell.Cells.{date_cell, time_cell, timestamp_cell, timestamptz_cell}
use pg_analytics.Schema.Cell.Temporal.{get_date, get_time, get_timestamp, get_timestamptz}
use pg_analytics.Datafusion.Cell.Values.{LakeLibraries, lake_mismatch}
use pg_analytics.Datafusion.Cell.Temporal.{lake_date, lake_time, lake_timestamp, lake_timestamptz}
use pg_analytics.Datafusion.Cell.Refined.{
  Refines, NullLaw, Utf8Law, date_Refines, time_Refines, timestamp_Refines, timestamptz_Refines,
}
use pg_analytics.Datafusion.Cell.Refined.Branches.{cell_Refines}

module _ (l : Libraries) (k : LakeLibraries) (null_law : NullLaw l k) (utf8_law : Utf8Law l k) where
  open l use {
    f16_to_f32, f16_to_f64, f32_as_f64, f64_as_f32, f32_as_int, f64_as_int, int_as_f32, int_as_f64,
    Array, format_decimal, numeric_from_str, numeric_from_int, numeric_from_f32, numeric_from_f64,
    int_from_numeric, f32_from_numeric, f64_from_numeric,
  }

  pub lake_date-Refines :
      (t : DataType) (array : Array) (index oid : ℕ) (name : Text)
      → Refines l k (lake_date l k t array index oid) (get_date l t array index oid name)
  unfolding lake_date get_date lake_mismatch
  lake_date-Refines date32 array index oid name =
      cell_Refines l k null_law utf8_law (λ v. ok (date_cell v)) _ _
        (date_Refines l k date32_array (λ n. n) array index)
  lake_date-Refines date64 array index oid name =
      cell_Refines l k null_law utf8_law (λ v. ok (date_cell v)) _ _
        (date_Refines l k date64_array (λ n. n) array index)
  lake_date-Refines t array index oid name = λ c h. ground (arith, h)

  pub lake_time-Refines :
      (t : DataType) (array : Array) (index oid : ℕ) (name : Text)
      → Refines l k (lake_time l k t array index oid) (get_time l t array index oid name)
  unfolding lake_time get_time lake_mismatch
  lake_time-Refines (time64 nanosecond) array index oid name =
      cell_Refines l k null_law utf8_law (λ v. ok (time_cell v)) _ _
        (time_Refines l k (time64_array nanosecond) (λ n. n) array index)
  lake_time-Refines (time64 microsecond) array index oid name =
      cell_Refines l k null_law utf8_law (λ v. ok (time_cell v)) _ _
        (time_Refines l k (time64_array microsecond) (λ n. n) array index)
  lake_time-Refines (time32 millisecond) array index oid name =
      cell_Refines l k null_law utf8_law (λ v. ok (time_cell v)) _ _
        (time_Refines l k (time32_array millisecond) (λ n. n) array index)
  lake_time-Refines (time32 second) array index oid name =
      cell_Refines l k null_law utf8_law (λ v. ok (time_cell v)) _ _
        (time_Refines l k (time32_array second) (λ n. n) array index)
  lake_time-Refines t array index oid name = λ c h. ground (arith, h)

  pub lake_timestamp-Refines :
      (t : DataType) (array : Array) (index oid : ℕ) (name : Text)
      → Refines l k (lake_timestamp l k t array index oid) (get_timestamp l t array index oid name)
  unfolding lake_timestamp get_timestamp lake_mismatch
  lake_timestamp-Refines (timestamp nanosecond tz) array index oid name =
      cell_Refines l k null_law utf8_law (λ v. ok (timestamp_cell v)) _ _
        (timestamp_Refines l k (timestamp_array nanosecond) (λ n. n) array index)
  lake_timestamp-Refines (timestamp microsecond tz) array index oid name =
      cell_Refines l k null_law utf8_law (λ v. ok (timestamp_cell v)) _ _
        (timestamp_Refines l k (timestamp_array microsecond) (λ n. n) array index)
  lake_timestamp-Refines (timestamp millisecond tz) array index oid name =
      cell_Refines l k null_law utf8_law (λ v. ok (timestamp_cell v)) _ _
        (timestamp_Refines l k (timestamp_array millisecond) (λ n. n) array index)
  lake_timestamp-Refines (timestamp second tz) array index oid name =
      cell_Refines l k null_law utf8_law (λ v. ok (timestamp_cell v)) _ _
        (timestamp_Refines l k (timestamp_array second) (λ n. n) array index)
  lake_timestamp-Refines t array index oid name = λ c h. ground (arith, h)

  pub lake_timestamptz-Refines :
      (t : DataType) (array : Array) (index oid : ℕ) (name : Text)
      → Refines l k
          (lake_timestamptz l k t array index oid)
          (get_timestamptz l t array index oid name)
  unfolding lake_timestamptz get_timestamptz lake_mismatch
  lake_timestamptz-Refines (timestamp nanosecond tz) array index oid name =
      cell_Refines l k null_law utf8_law (λ v. ok (timestamptz_cell v)) _ _
        (timestamptz_Refines l k (timestamp_array nanosecond) (λ n. n) array index tz)
  lake_timestamptz-Refines (timestamp microsecond tz) array index oid name =
      cell_Refines l k null_law utf8_law (λ v. ok (timestamptz_cell v)) _ _
        (timestamptz_Refines l k (timestamp_array microsecond) (λ n. n) array index tz)
  lake_timestamptz-Refines (timestamp millisecond tz) array index oid name =
      cell_Refines l k null_law utf8_law (λ v. ok (timestamptz_cell v)) _ _
        (timestamptz_Refines l k (timestamp_array millisecond) (λ n. n) array index tz)
  lake_timestamptz-Refines (timestamp second tz) array index oid name =
      cell_Refines l k null_law utf8_law (λ v. ok (timestamptz_cell v)) _ _
        (timestamptz_Refines l k (timestamp_array second) (λ n. n) array index tz)
  lake_timestamptz-Refines t array index oid name = λ c h. ground (arith, h)

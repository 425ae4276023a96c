-- ===== src/Datafusion/Cell/Temporal.antt =====
-- src/datafusion/src/schema/cell.rs: the branches of `get_cell` for dates and times.
use pg_analytics.Prelude.{ℕ, Option}
use pg_analytics.Result.{Result}
use pg_analytics.Schema.Cell.Types.{
  DataType, date32, date64, time32, time64, timestamp, date32_array, date64_array, time32_array,
  time64_array, timestamp_array, second, millisecond, microsecond, nanosecond,
}
use pg_analytics.Schema.Cell.Libraries.{Libraries}
use pg_analytics.Schema.Cell.Cells.{
  Cell, to_cell, date_cell, time_cell, timestamp_cell, timestamptz_cell,
}
use pg_analytics.Datafusion.Cell.Values.{
  LakeLibraries, lake_mismatch, lake_date_value, lake_time_value, lake_timestamp_value,
  lake_timestamptz_value,
}

module _ (l : Libraries) (k : LakeLibraries) where
  open l use {Array}

  -- The branch `DATEOID` of `get_cell`.
  unfoldable pub lake_date : DataType → Array → ℕ → ℕ → Result (Option (Cell l))
  lake_date date32 array index oid =
      to_cell l date_cell (lake_date_value l k date32_array (λ n. n) array index)
  lake_date date64 array index oid =
      to_cell l date_cell (lake_date_value l k date64_array (λ n. n) array index)
  lake_date t array index oid = lake_mismatch l k t oid

  -- The branch `TIMEOID` of `get_cell`.
  unfoldable pub lake_time : DataType → Array → ℕ → ℕ → Result (Option (Cell l))
  lake_time (time64 nanosecond) array index oid =
      to_cell l time_cell (lake_time_value l k (time64_array nanosecond) (λ n. n) array index)
  lake_time (time64 microsecond) array index oid =
      to_cell l time_cell (lake_time_value l k (time64_array microsecond) (λ n. n) array index)
  lake_time (time32 millisecond) array index oid =
      to_cell l time_cell (lake_time_value l k (time32_array millisecond) (λ n. n) array index)
  lake_time (time32 second) array index oid =
      to_cell l time_cell (lake_time_value l k (time32_array second) (λ n. n) array index)
  lake_time t array index oid = lake_mismatch l k t oid

  -- The branch `TIMESTAMPOID` of `get_cell`.
  unfoldable pub lake_timestamp : DataType → Array → ℕ → ℕ → Result (Option (Cell l))
  lake_timestamp (timestamp nanosecond tz) array index oid =
      to_cell l timestamp_cell
        (lake_timestamp_value l k (timestamp_array nanosecond) (λ n. n) array index)
  lake_timestamp (timestamp microsecond tz) array index oid =
      to_cell l timestamp_cell
        (lake_timestamp_value l k (timestamp_array microsecond) (λ n. n) array index)
  lake_timestamp (timestamp millisecond tz) array index oid =
      to_cell l timestamp_cell
        (lake_timestamp_value l k (timestamp_array millisecond) (λ n. n) array index)
  lake_timestamp (timestamp second tz) array index oid =
      to_cell l timestamp_cell
        (lake_timestamp_value l k (timestamp_array second) (λ n. n) array index)
  lake_timestamp t array index oid = lake_mismatch l k t oid

  -- The branch `TIMESTAMPTZOID` of `get_cell`.
  unfoldable pub lake_timestamptz : DataType → Array → ℕ → ℕ → Result (Option (Cell l))
  lake_timestamptz (timestamp nanosecond tz) array index oid =
      to_cell l timestamptz_cell
        (lake_timestamptz_value l k (timestamp_array nanosecond) (λ n. n) array index tz)
  lake_timestamptz (timestamp microsecond tz) array index oid =
      to_cell l timestamptz_cell
        (lake_timestamptz_value l k (timestamp_array microsecond) (λ n. n) array index tz)
  lake_timestamptz (timestamp millisecond tz) array index oid =
      to_cell l timestamptz_cell
        (lake_timestamptz_value l k (timestamp_array millisecond) (λ n. n) array index tz)
  lake_timestamptz (timestamp second tz) array index oid =
      to_cell l timestamptz_cell
        (lake_timestamptz_value l k (timestamp_array second) (λ n. n) array index tz)
  lake_timestamptz t array index oid = lake_mismatch l k t oid

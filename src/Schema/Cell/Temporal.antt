-- ===== src/Schema/Cell/Temporal.antt =====
-- src/schema/cell.rs: the branches of `get_cell` for dates, times and intervals.
use pg_analytics.Prelude.{ℕ, Option}
use pg_analytics.Text.{Text}
use pg_analytics.Result.{Result}
use pg_analytics.Schema.Cell.Types.{
  DataType, date32, date64, time32, time64, timestamp, interval, date32_array, date64_array,
  time32_array, time64_array, timestamp_array, second, millisecond, microsecond, nanosecond,
  year_month, day_time, month_day_nano,
}
use pg_analytics.Schema.Cell.Libraries.{Libraries}
use pg_analytics.Schema.Cell.Values.{
  get_date_value, get_time_value, get_timestamp_value, get_timestamptz_value,
  get_interval_day_time_value, get_interval_month_day_nano_value, get_interval_year_month_value,
}
use pg_analytics.Schema.Cell.Cells.{
  Cell, to_cell, mismatch, date_cell, time_cell, timestamp_cell, timestamptz_cell, interval_cell,
}

module _ (l : Libraries) where
  open l use {Array, timestamp_from_date, timestamptz_from_date}

  -- The branch `DATEOID` of `get_cell`.
  unfoldable pub get_date : DataType → Array → ℕ → ℕ → Text → Result (Option (Cell l))
  get_date date32 array index oid name =
      to_cell l date_cell (get_date_value l date32_array (λ n. n) array index)
  get_date date64 array index oid name =
      to_cell l date_cell (get_date_value l date64_array (λ n. n) array index)
  get_date t array index oid name = mismatch l name t oid

  -- The branch `INTERVALOID` of `get_cell`.
  unfoldable pub get_interval : DataType → Array → ℕ → ℕ → Text → Result (Option (Cell l))
  get_interval (interval day_time) array index oid name =
      to_cell l interval_cell (get_interval_day_time_value l array index)
  get_interval (interval month_day_nano) array index oid name =
      to_cell l interval_cell (get_interval_month_day_nano_value l array index)
  get_interval (interval year_month) array index oid name =
      to_cell l interval_cell (get_interval_year_month_value l array index)
  get_interval t array index oid name = mismatch l name t oid

  -- The branch `TIMEOID` of `get_cell`.
  unfoldable pub get_time : DataType → Array → ℕ → ℕ → Text → Result (Option (Cell l))
  get_time (time64 nanosecond) array index oid name =
      to_cell l time_cell (get_time_value l (time64_array nanosecond) (λ n. n) array index)
  get_time (time64 microsecond) array index oid name =
      to_cell l time_cell (get_time_value l (time64_array microsecond) (λ n. n) array index)
  get_time (time32 millisecond) array index oid name =
      to_cell l time_cell (get_time_value l (time32_array millisecond) (λ n. n) array index)
  get_time (time32 second) array index oid name =
      to_cell l time_cell (get_time_value l (time32_array second) (λ n. n) array index)
  get_time t array index oid name = mismatch l name t oid

  -- The branch `TIMESTAMPOID` of `get_cell`.
  unfoldable pub get_timestamp : DataType → Array → ℕ → ℕ → Text → Result (Option (Cell l))
  get_timestamp (timestamp nanosecond tz) array index oid name =
      to_cell l timestamp_cell
        (get_timestamp_value l (timestamp_array nanosecond) (λ n. n) array index)
  get_timestamp (timestamp microsecond tz) array index oid name =
      to_cell l timestamp_cell
        (get_timestamp_value l (timestamp_array microsecond) (λ n. n) array index)
  get_timestamp (timestamp millisecond tz) array index oid name =
      to_cell l timestamp_cell
        (get_timestamp_value l (timestamp_array millisecond) (λ n. n) array index)
  get_timestamp (timestamp second tz) array index oid name =
      to_cell l timestamp_cell (get_timestamp_value l (timestamp_array second) (λ n. n) array index)
  get_timestamp date32 array index oid name =
      to_cell l (λ v. timestamp_cell (timestamp_from_date v))
        (get_date_value l date32_array (λ n. n) array index)
  get_timestamp date64 array index oid name =
      to_cell l (λ v. timestamp_cell (timestamp_from_date v))
        (get_date_value l date64_array (λ n. n) array index)
  get_timestamp t array index oid name = mismatch l name t oid

  -- The branch `TIMESTAMPTZOID` of `get_cell`.
  unfoldable pub get_timestamptz : DataType → Array → ℕ → ℕ → Text → Result (Option (Cell l))
  get_timestamptz (timestamp nanosecond tz) array index oid name =
      to_cell l timestamptz_cell
        (get_timestamptz_value l (timestamp_array nanosecond) (λ n. n) array index tz)
  get_timestamptz (timestamp microsecond tz) array index oid name =
      to_cell l timestamptz_cell
        (get_timestamptz_value l (timestamp_array microsecond) (λ n. n) array index tz)
  get_timestamptz (timestamp millisecond tz) array index oid name =
      to_cell l timestamptz_cell
        (get_timestamptz_value l (timestamp_array millisecond) (λ n. n) array index tz)
  get_timestamptz (timestamp second tz) array index oid name =
      to_cell l timestamptz_cell
        (get_timestamptz_value l (timestamp_array second) (λ n. n) array index tz)
  get_timestamptz date32 array index oid name =
      to_cell l (λ v. timestamptz_cell (timestamptz_from_date v))
        (get_date_value l date32_array (λ n. n) array index)
  get_timestamptz date64 array index oid name =
      to_cell l (λ v. timestamptz_cell (timestamptz_from_date v))
        (get_date_value l date64_array (λ n. n) array index)
  get_timestamptz t array index oid name = mismatch l name t oid

-- ===== src/Datafusion/Cell/Values.antt =====
-- src/datafusion/src/schema/cell.rs: the helper traits, and the errors.
use pg_analytics.Prelude.{ℕ, ltb, ◌&&◌, if◌then◌else◌, Option, none, some, List, [], ◌∷◌}
use pg_analytics.Text.{Text, str, concat}
use pg_analytics.Result.{Result, ok, err, Failure, error, ok_or, ◌>>=◌}
use pg_analytics.Schema.Datetime.{date_of, time_of, timestamp_of, timestamp_with_timezone_of}
use pg_analytics.Schema.Integers.{ℤ, pos, negsuc, half_i64}
use pg_analytics.Schema.Cell.Types.{DataType, ArrayType, IntType, int_array, decimal128_array}
use pg_analytics.Schema.Cell.Libraries.{Libraries, View}
use pg_analytics.Schema.Cell.Values.{ItemOf, as_primitive, unless_null}
use pg_analytics.Schema.Cell.Cells.{Cell}

-- What the macro `downcast_value!` of DataFusion fails with, and `String::from_utf8`.
pub record LakeLibraries : Type 0 where
  pub cast_error : ArrayType → Failure
  pub from_utf8 : List ℕ → Result Text

abbrev date_failed : Text
date_failed = str "Failed to convert date to NaiveDate"

abbrev datetime_failed : Text
datetime_failed = str "Failed to convert timestamp to NaiveDateTime"

-- `i64::try_from` of an unsigned value, which is not negative.
unfoldable pub i64_try_from : ℤ → Result ℤ
i64_try_from (pos n) =
    if ltb n half_i64 then ok (pos n) else err (error (str "Failed to convert UInt to i64"))
i64_try_from (negsuc n) = err (error (str "Failed to convert UInt to i64"))

module _ (l : Libraries) (k : LakeLibraries) where
  open l use {
    Array, data_type, downcast_ref, debug_type, as_date, as_time, as_datetime, tz_from_str,
    as_datetime_with_tz, format_decimal, debug_oid, AnyNumeric, numeric_from_str, PgDate, PgTime,
    PgTimestamp, PgTimestamptz, date_new, time_new, timestamp_new, timestamptz_new, with_timezone,
  }
  open k use {cast_error, from_utf8}

  -- `downcast_value!`
  abbrev downcast_value : (a : ArrayType) → Array → Result (View (ItemOf l a))
  downcast_value a array = ok_or (downcast_ref a array) (cast_error a)

  -- `get_binary_value`
  unfoldable pub lake_binary_value :
      (a : ArrayType) → (ItemOf l a → List ℕ) → Array → ℕ → Result (Option Text)
  lake_binary_value a as_ref array index =
      downcast_value a array >>= λ view. unless_null view index λ bytes. from_utf8 (as_ref bytes)

  -- `get_date_value`
  unfoldable pub lake_date_value :
      (a : ArrayType) → (ItemOf l a → ℤ) → Array → ℕ → Result (Option PgDate)
  lake_date_value a number array index = as_primitive l a array >>= λ view.
      unless_null view index
        λ v. ok_or (as_date a (number v)) (error date_failed) >>= λ date. date_new (date_of ℤ date)

  -- `get_primitive_value`
  unfoldable pub lake_primitive_value : (a : ArrayType) → Array → ℕ → Result (Option (ItemOf l a))
  lake_primitive_value a array index =
      downcast_value a array >>= λ view. unless_null view index λ v. ok v

  -- `get_decimal_value`
  unfoldable pub lake_decimal_value :
      {N : Type 0} → (AnyNumeric → Result N) → Array → ℕ → ℕ → ℤ → Result (Option N)
  lake_decimal_value try_from array index precision scale =
      downcast_value decimal128_array array >>= λ view.
      unless_null view index λ v. numeric_from_str (format_decimal v precision scale) >>= try_from

  -- `get_time_value`
  unfoldable pub lake_time_value :
      (a : ArrayType) → (ItemOf l a → ℤ) → Array → ℕ → Result (Option PgTime)
  lake_time_value a number array index = as_primitive l a array >>= λ view.
      unless_null view index λ v.
        ok_or (as_time a (number v)) (error datetime_failed) >>= λ time. time_new (time_of ℤ time)

  -- `get_timestamp_value`
  unfoldable pub lake_timestamp_value :
      (a : ArrayType) → (ItemOf l a → ℤ) → Array → ℕ → Result (Option PgTimestamp)
  lake_timestamp_value a number array index = as_primitive l a array >>= λ view.
      unless_null view index λ v.
        ok_or (as_datetime a (number v)) (error datetime_failed) >>= λ datetime.
        timestamp_new (timestamp_of ℤ datetime)

  -- The two branches of `match tz`, for the value at the index.
  abbrev lake_timestamptz_in : ArrayType → Option Text → Result ℤ → Result PgTimestamptz
  lake_timestamptz_in a (some tz) value = do
    zone ← tz_from_str tz
    v ← value
    (date, time) ← ok_or (as_datetime_with_tz a v zone) (error datetime_failed)
    with_timezone (timestamp_with_timezone_of ℤ (date, time, tz))
  lake_timestamptz_in a none value = do
    v ← value
    datetime ← ok_or (as_datetime a v) (error datetime_failed)
    timestamptz_new (timestamp_of ℤ datetime)

  -- `get_timestamptz_value`
  unfoldable pub lake_timestamptz_value :
      (a : ArrayType) → (ItemOf l a → ℤ) → Array → ℕ → Option Text → Result (Option PgTimestamptz)
  lake_timestamptz_value a number array index tz = as_primitive l a array >>= λ view.
      if view.nulls_is_some && view.is_null index
      then ok none
      else (lake_timestamptz_in a tz (view.value index >>= λ v. ok (number v)) >>= λ t. ok (some t))

  -- `get_uint_value`, which asks `is_null` alone.
  unfoldable pub lake_uint_value : IntType → Array → ℕ → Result (Option ℤ)
  unfolding i64_try_from
  lake_uint_value t array index = as_primitive l (int_array t) array >>= λ view.
      if view.is_null index
      then ok none
      else (view.value index >>= λ v. i64_try_from v >>= λ w. ok (some w))

  -- `DataTypeError::DataTypeMismatch`
  unfoldable pub lake_mismatch : DataType → ℕ → Result (Option (Cell l))
  lake_mismatch data_type oid = err (
      error (
        concat (
          str "Received unsupported data type "
          ∷ debug_type data_type
          ∷ str " for "
          ∷ debug_oid oid
          ∷ str
              ". Please submit a request at https://github.com/paradedb/paradedb/issues if you believe this conversion should be supported"
          ∷ [])))

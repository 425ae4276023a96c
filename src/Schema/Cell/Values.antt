-- ===== src/Schema/Cell/Values.antt =====
-- src/schema/cell.rs: the helper traits that read one value of an array. The products of `i32` and the
-- quotients of `i64` are those of a release build, which wrap.
use pg_analytics.Prelude.{ℕ, ◌&&◌, if◌then◌else◌, Option, none, some, List, [], ◌∷◌}
use pg_analytics.Text.{Text, str, concat}
use pg_analytics.Result.{Result, ok, error, panic, ok_or, ◌>>=◌}
use pg_analytics.Schema.Datetime.{date_of, time_of, timestamp_of, timestamp_with_timezone_of}
use pg_analytics.Schema.Integers.{ℤ, pos, cast, half_i32, times, divided}
use pg_analytics.Schema.Cell.Types.{
  ArrayType, Item, IntType, int_array, decimal128_array, string_array, interval_array, year_month,
  day_time, month_day_nano,
}
use pg_analytics.Schema.Cell.Libraries.{Libraries, View, ListView}

-- `match downcast_array.nulls().is_some() && downcast_array.is_null(index)`: nothing, or what comes
-- of the value.
abbrev pub unless_null : {A B : Type 0} → View A → ℕ → (A → Result B) → Result (Option B)
unless_null view index f =
    if view.nulls_is_some && view.is_null index
    then ok none
    else view.value index >>= λ v. f v >>= λ b. ok (some b)

-- A temporal value that chrono cannot represent.
abbrev not_a_date : Text
not_a_date = str "failed to convert date to NaiveDate"

abbrev not_a_datetime : Text
not_a_datetime = str "failed to convert timestamp to NaiveDateTime"

module _ (l : Libraries) where
  open l use {
    F16, F32, F64, Array, downcast_ref, as_list, type_name, as_date, as_time, as_datetime,
    tz_from_str, as_datetime_with_tz, format_decimal, text_of_bytes, AnyNumeric, numeric_from_str,
    PgDate, PgTime, PgTimestamp, PgTimestamptz, PgInterval, PgUuid, date_new, time_new,
    timestamp_new, timestamptz_new, with_timezone, interval_new, interval_from_months, parse_uuid,
    uuid_from_slice,
  }

  abbrev pub ItemOf : ArrayType → Type 0
  ItemOf = Item F16 F32 F64

  -- `as_primitive`, `as_list` and `as_struct` of arrow panic on an array of another type.
  abbrev pub as_primitive : (a : ArrayType) → Array → Result (View (ItemOf a))
  as_primitive a array = ok_or (downcast_ref a array) (panic (str "primitive array"))

  abbrev pub as_list_array : Array → Result (ListView Array)
  as_list_array array = ok_or (as_list array) (panic (str "list array"))

  -- `get_binary_value`
  unfoldable pub get_binary_value :
      (a : ArrayType) → (ItemOf a → List ℕ) → Array → ℕ → Result (Option Text)
  get_binary_value a as_ref array index =
      ok_or (downcast_ref a array) (error (str "failed to downcast binary array")) >>= λ view.
      unless_null view index λ bytes. ok (text_of_bytes (as_ref bytes))

  -- `get_byte_value`
  unfoldable pub get_byte_value :
      (a : ArrayType) → (ItemOf a → List ℕ) → Array → ℕ → Result (Option (List ℕ))
  get_byte_value a as_ref array index =
      ok_or (downcast_ref a array) (error (str "failed to downcast byte array")) >>= λ view.
      unless_null view index λ bytes. ok (as_ref bytes)

  -- `get_date_value`; `days` gives the number that `value_as_date` reads.
  unfoldable pub get_date_value :
      (a : ArrayType) → (ItemOf a → ℤ) → Array → ℕ → Result (Option PgDate)
  get_date_value a number array index = as_primitive a array >>= λ view.
      unless_null view index
        λ v. ok_or (as_date a (number v)) (error not_a_date) >>= λ date. date_new (date_of ℤ date)

  -- `get_primitive_value`
  unfoldable pub get_primitive_value : (a : ArrayType) → Array → ℕ → Result (Option (ItemOf a))
  get_primitive_value a array index =
      ok_or (downcast_ref a array)
        (error (concat (str "failed to downcast primitive array " ∷ type_name a ∷ [])))
      >>= λ view. unless_null view index λ v. ok v

  -- The values of row `index` of a list array, which are an array of type `a`.
  abbrev row_values : (a : ArrayType) → Array → ℕ → Result (Option (List (Option (ItemOf a))))
  row_values a array index = as_list_array array >>= λ view.
      if view.nulls_is_some && view.is_null index
      then ok none
      else view.value index >>= λ row.
          ok_or (downcast_ref a row) (error (str "failed to downcast list array")) >>= λ inner.
          ok (some inner.values)

  -- `get_primitive_list_value`
  unfoldable pub get_primitive_list_value :
      (a : ArrayType) → Array → ℕ → Result (Option (List (Option (ItemOf a))))
  get_primitive_list_value = row_values

  -- `get_string_list_value`
  unfoldable pub get_string_list_value : Array → ℕ → Result (Option (List (Option Text)))
  get_string_list_value = row_values string_array

  -- `get_decimal_value`, for the `try_from` of the number type.
  unfoldable pub get_decimal_value :
      {N : Type 0} → (AnyNumeric → Result N) → Array → ℕ → ℕ → ℤ → Result (Option N)
  get_decimal_value try_from array index precision scale =
      ok_or (downcast_ref decimal128_array array)
        (error (str "failed to downcast Decimal128 array"))
      >>= λ view.
          unless_null view index
            λ v. numeric_from_str (format_decimal v precision scale) >>= try_from

  -- `get_interval_day_time_value`
  unfoldable pub get_interval_day_time_value : Array → ℕ → Result (Option PgInterval)
  get_interval_day_time_value array index = as_primitive (interval_array day_time) array >>= λ view.
      unless_null view index λ v.
        let (days, milliseconds) = v in
        interval_new (pos 0) days (cast half_i32 (times 1000 milliseconds))

  -- `get_interval_month_day_nano_value`
  unfoldable pub get_interval_month_day_nano_value : Array → ℕ → Result (Option PgInterval)
  get_interval_month_day_nano_value array index =
      as_primitive (interval_array month_day_nano) array >>= λ view. unless_null view index λ v.
        let (months, days, nanoseconds) = v in interval_new months days (divided 1000 nanoseconds)

  -- `get_interval_year_month_value`
  unfoldable pub get_interval_year_month_value : Array → ℕ → Result (Option PgInterval)
  get_interval_year_month_value array index =
      as_primitive (interval_array year_month) array >>= λ view.
      unless_null view index λ months. ok (interval_from_months months)

  -- `get_time_value`
  unfoldable pub get_time_value :
      (a : ArrayType) → (ItemOf a → ℤ) → Array → ℕ → Result (Option PgTime)
  get_time_value a number array index = as_primitive a array >>= λ view.
      unless_null view index λ v.
        ok_or (as_time a (number v)) (error not_a_datetime) >>= λ time. time_new (time_of ℤ time)

  -- `get_timestamp_value`
  unfoldable pub get_timestamp_value :
      (a : ArrayType) → (ItemOf a → ℤ) → Array → ℕ → Result (Option PgTimestamp)
  get_timestamp_value a number array index = as_primitive a array >>= λ view.
      unless_null view index λ v.
        ok_or (as_datetime a (number v)) (error not_a_datetime) >>= λ datetime.
        timestamp_new (timestamp_of ℤ datetime)

  -- The two branches of `match tz`, for the value at the index; a zone is parsed before the value is
  -- read.
  abbrev timestamptz_in : ArrayType → Option Text → Result ℤ → Result PgTimestamptz
  timestamptz_in a (some tz) value = do
    zone ← tz_from_str tz
    v ← value
    (date, time) ← ok_or (as_datetime_with_tz a v zone) (error not_a_datetime)
    with_timezone (timestamp_with_timezone_of ℤ (date, time, tz))
  timestamptz_in a none value = do
    v ← value
    datetime ← ok_or (as_datetime a v) (error not_a_datetime)
    timestamptz_new (timestamp_of ℤ datetime)

  -- `get_timestamptz_value`
  unfoldable pub get_timestamptz_value :
      (a : ArrayType) → (ItemOf a → ℤ) → Array → ℕ → Option Text → Result (Option PgTimestamptz)
  get_timestamptz_value a number array index tz = as_primitive a array >>= λ view.
      if view.nulls_is_some && view.is_null index
      then ok none
      else (timestamptz_in a tz (view.value index >>= λ v. ok (number v)) >>= λ t. ok (some t))

  -- `get_uint_value`; the conversion to `u64` of an unsigned value cannot fail.
  unfoldable pub get_uint_value : IntType → Array → ℕ → Result (Option ℤ)
  get_uint_value k array index =
      as_primitive (int_array k) array >>= λ view. unless_null view index λ v. ok v

  -- `get_uuid_value`
  unfoldable pub get_uuid_value : Array → ℕ → Result (Option PgUuid)
  get_uuid_value array index =
      ok_or (downcast_ref string_array array) (error (str "failed to downcast uuid array"))
      >>= λ view. unless_null view index λ v. parse_uuid v >>= uuid_from_slice

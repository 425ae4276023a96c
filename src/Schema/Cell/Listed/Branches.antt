-- ===== src/Schema/Cell/Listed/Branches.antt =====
-- The branches of `get_cell` on a null of a type that they list.
use pg_analytics.Prelude.{ℕ, arith, Bool, true, ◌||◌, ◌&&◌, Option, none, not, ◌≡◌}
use pg_analytics.Text.{Text}
use pg_analytics.Result.{Result, ok}
use pg_analytics.Schema.Cell.Types.{
  DataType, i64, f16, f32, f64, year_month, day_time, month_day_nano, int, float, decimal128, utf8,
  large_utf8, binary, large_binary, date32, date64, time32, time64, timestamp, interval, list,
  struct,
}
use pg_analytics.Schema.Cell.Libraries.{Libraries}
use pg_analytics.Schema.Cell.Values.{
  get_primitive_value, get_uint_value, get_decimal_value, get_byte_value, get_binary_value,
  get_date_value, get_time_value, get_timestamp_value, get_timestamptz_value,
  get_interval_day_time_value, get_interval_month_day_nano_value, get_interval_year_month_value,
}
use pg_analytics.Schema.Cell.Nested.{get_struct_value, get_list_value, list_fueled, list_body}
use pg_analytics.Schema.Cell.Cells.{Cell}
use pg_analytics.Schema.Cell.Numbers.{get_int2, get_int4, get_int8}
use pg_analytics.Schema.Cell.Floats.{get_float4, get_float8, get_numeric}
use pg_analytics.Schema.Cell.Documents.{get_bytea, get_text, get_json, get_jsonb}
use pg_analytics.Schema.Cell.Temporal.{
  get_date, get_interval, get_time, get_timestamp, get_timestamptz,
}
use pg_analytics.Schema.Cell.Get.{get_void}
use pg_analytics.Schema.Cell.Listed.{
  is_number, is_string, is_binary, is_utf8, is_date, is_timestamp, is_interval, is_time, is_nested,
  is_null_type, is_i64,
}
use pg_analytics.Schema.Cell.Listed.Nulls.{null_at}

module _ (l : Libraries) where
  open l use {Array}

  -- A branch that reads a null of the types that pass a test as nothing.
  abbrev pub NullIsNone :
      (DataType → Bool) → (DataType → Array → ℕ → ℕ → Text → Result (Option (Cell l))) → Type 0
  NullIsNone test branch =
      (t : DataType) (array : Array) (index oid : ℕ) (name : Text)
      → test t ≡ true
      → null_at l t array index ≡ true
      → branch t array index oid name ≡ ok none

  pub get_bytea-NullIsNone : NullIsNone (λ t. is_binary t || is_utf8 t) (get_bytea l)
  unfolding get_bytea get_byte_value get_primitive_value
  get_bytea-NullIsNone binary array index oid name listed is_null = ground arith
  get_bytea-NullIsNone large_binary array index oid name listed is_null = ground arith
  get_bytea-NullIsNone utf8 array index oid name listed is_null = ground arith
  get_bytea-NullIsNone t array index oid name listed is_null = ground arith

  pub get_text-NullIsNone : NullIsNone (λ t. is_string t || is_binary t) (get_text l)
  unfolding get_text get_binary_value get_primitive_value
  get_text-NullIsNone utf8 array index oid name listed is_null = ground arith
  get_text-NullIsNone large_utf8 array index oid name listed is_null = ground arith
  get_text-NullIsNone binary array index oid name listed is_null = ground arith
  get_text-NullIsNone large_binary array index oid name listed is_null = ground arith
  get_text-NullIsNone t array index oid name listed is_null = ground arith

  pub get_json-NullIsNone : NullIsNone (λ t. is_nested t || is_string t) (get_json l)
  unfolding get_json get_primitive_value get_struct_value get_list_value list_fueled list_body
  get_json-NullIsNone utf8 array index oid name listed is_null = ground arith
  get_json-NullIsNone large_utf8 array index oid name listed is_null = ground arith
  get_json-NullIsNone (list of) array index oid name listed is_null = ground arith
  get_json-NullIsNone (struct fields) array index oid name listed is_null = ground arith
  get_json-NullIsNone t array index oid name listed is_null = ground arith

  pub get_jsonb-NullIsNone : NullIsNone (λ t. is_nested t || is_string t) (get_jsonb l)
  unfolding get_jsonb get_primitive_value get_struct_value get_list_value list_fueled list_body
  get_jsonb-NullIsNone utf8 array index oid name listed is_null = ground arith
  get_jsonb-NullIsNone large_utf8 array index oid name listed is_null = ground arith
  get_jsonb-NullIsNone (list of) array index oid name listed is_null = ground arith
  get_jsonb-NullIsNone (struct fields) array index oid name listed is_null = ground arith
  get_jsonb-NullIsNone t array index oid name listed is_null = ground arith

  pub get_int2-NullIsNone : NullIsNone (λ t. is_number t && not (is_i64 t)) (get_int2 l)
  unfolding get_int2 get_primitive_value get_uint_value get_decimal_value
  get_int2-NullIsNone (int i64) array index oid name listed is_null = ground arith
  get_int2-NullIsNone (int k) array index oid name listed is_null = ground arith
  get_int2-NullIsNone (float f16) array index oid name listed is_null = ground arith
  get_int2-NullIsNone (float f32) array index oid name listed is_null = ground arith
  get_int2-NullIsNone (float f64) array index oid name listed is_null = ground arith
  get_int2-NullIsNone (decimal128 p s) array index oid name listed is_null = ground arith
  get_int2-NullIsNone t array index oid name listed is_null = ground arith

  pub get_int4-NullIsNone : NullIsNone is_number (get_int4 l)
  unfolding get_int4 get_primitive_value get_uint_value get_decimal_value
  get_int4-NullIsNone (int k) array index oid name listed is_null = ground arith
  get_int4-NullIsNone (float f16) array index oid name listed is_null = ground arith
  get_int4-NullIsNone (float f32) array index oid name listed is_null = ground arith
  get_int4-NullIsNone (float f64) array index oid name listed is_null = ground arith
  get_int4-NullIsNone (decimal128 p s) array index oid name listed is_null = ground arith
  get_int4-NullIsNone t array index oid name listed is_null = ground arith

  pub get_int8-NullIsNone : NullIsNone is_number (get_int8 l)
  unfolding get_int8 get_primitive_value get_uint_value get_decimal_value
  get_int8-NullIsNone (int k) array index oid name listed is_null = ground arith
  get_int8-NullIsNone (float f16) array index oid name listed is_null = ground arith
  get_int8-NullIsNone (float f32) array index oid name listed is_null = ground arith
  get_int8-NullIsNone (float f64) array index oid name listed is_null = ground arith
  get_int8-NullIsNone (decimal128 p s) array index oid name listed is_null = ground arith
  get_int8-NullIsNone t array index oid name listed is_null = ground arith

  pub get_float4-NullIsNone : NullIsNone is_number (get_float4 l)
  unfolding get_float4 get_primitive_value get_uint_value get_decimal_value
  get_float4-NullIsNone (int k) array index oid name listed is_null = ground arith
  get_float4-NullIsNone (float f16) array index oid name listed is_null = ground arith
  get_float4-NullIsNone (float f32) array index oid name listed is_null = ground arith
  get_float4-NullIsNone (float f64) array index oid name listed is_null = ground arith
  get_float4-NullIsNone (decimal128 p s) array index oid name listed is_null = ground arith
  get_float4-NullIsNone t array index oid name listed is_null = ground arith

  pub get_float8-NullIsNone : NullIsNone is_number (get_float8 l)
  unfolding get_float8 get_primitive_value get_uint_value get_decimal_value
  get_float8-NullIsNone (int k) array index oid name listed is_null = ground arith
  get_float8-NullIsNone (float f16) array index oid name listed is_null = ground arith
  get_float8-NullIsNone (float f32) array index oid name listed is_null = ground arith
  get_float8-NullIsNone (float f64) array index oid name listed is_null = ground arith
  get_float8-NullIsNone (decimal128 p s) array index oid name listed is_null = ground arith
  get_float8-NullIsNone t array index oid name listed is_null = ground arith

  pub get_numeric-NullIsNone : NullIsNone is_number (get_numeric l)
  unfolding get_numeric get_primitive_value get_uint_value
  get_numeric-NullIsNone (int k) array index oid name listed is_null = ground arith
  get_numeric-NullIsNone (float f16) array index oid name listed is_null = ground arith
  get_numeric-NullIsNone (float f32) array index oid name listed is_null = ground arith
  get_numeric-NullIsNone (float f64) array index oid name listed is_null = ground arith
  get_numeric-NullIsNone (decimal128 p s) array index oid name listed is_null = ground arith
  get_numeric-NullIsNone t array index oid name listed is_null = ground arith

  pub get_date-NullIsNone : NullIsNone is_date (get_date l)
  unfolding get_date get_date_value
  get_date-NullIsNone date32 array index oid name listed is_null = ground arith
  get_date-NullIsNone date64 array index oid name listed is_null = ground arith
  get_date-NullIsNone t array index oid name listed is_null = ground arith

  pub get_interval-NullIsNone : NullIsNone is_interval (get_interval l)
  unfolding get_interval get_interval_day_time_value get_interval_month_day_nano_value
      get_interval_year_month_value
  get_interval-NullIsNone (interval year_month) array index oid name listed is_null = ground arith
  get_interval-NullIsNone (interval day_time) array index oid name listed is_null = ground arith
  get_interval-NullIsNone (interval month_day_nano) array index oid name listed is_null =
      ground arith
  get_interval-NullIsNone t array index oid name listed is_null = ground arith

  pub get_time-NullIsNone : NullIsNone is_time (get_time l)
  unfolding get_time get_time_value
  get_time-NullIsNone (time32 unit) array index oid name listed is_null = ground arith
  get_time-NullIsNone (time64 unit) array index oid name listed is_null = ground arith
  get_time-NullIsNone t array index oid name listed is_null = ground arith

  pub get_timestamp-NullIsNone : NullIsNone (λ t. is_timestamp t || is_date t) (get_timestamp l)
  unfolding get_timestamp get_date_value get_timestamp_value
  get_timestamp-NullIsNone date32 array index oid name listed is_null = ground arith
  get_timestamp-NullIsNone date64 array index oid name listed is_null = ground arith
  get_timestamp-NullIsNone (timestamp unit tz) array index oid name listed is_null = ground arith
  get_timestamp-NullIsNone t array index oid name listed is_null = ground arith

  pub get_timestamptz-NullIsNone : NullIsNone (λ t. is_timestamp t || is_date t) (get_timestamptz l)
  unfolding get_timestamptz get_date_value get_timestamptz_value
  get_timestamptz-NullIsNone date32 array index oid name listed is_null = ground arith
  get_timestamptz-NullIsNone date64 array index oid name listed is_null = ground arith
  get_timestamptz-NullIsNone (timestamp unit tz) array index oid name listed is_null = ground arith
  get_timestamptz-NullIsNone t array index oid name listed is_null = ground arith

  pub get_void-NullIsNone : NullIsNone is_null_type (get_void l)
  unfolding get_void
  get_void-NullIsNone t array index oid name listed is_null = ground arith

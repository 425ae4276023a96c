-- ===== src/Datafusion/Attribute/Nulls.antt =====
-- The branches of the earlier `get_cell` on a null of a type that they list.
use pg_analytics.Prelude.{ℕ, arith, Bool, true, ◌||◌, ◌&&◌, Option, none, not, ◌≡◌}
use pg_analytics.Result.{Result, ok}
use pg_analytics.Schema.Cell.Types.{
  DataType, i64, f16, f32, f64, int, float, decimal128, utf8, large_utf8, binary, large_binary,
  date32, date64, time32, time64, timestamp,
}
use pg_analytics.Schema.Cell.Libraries.{Libraries}
use pg_analytics.Schema.Cell.Cells.{Cell}
use pg_analytics.Schema.Cell.Listed.{
  is_number, is_string, is_binary, is_date, is_time, is_timestamp, is_i64,
}
use pg_analytics.Schema.Cell.Listed.Nulls.{null_at}
use pg_analytics.Datafusion.Cell.Values.{
  LakeLibraries, lake_primitive_value, lake_uint_value, lake_decimal_value, lake_binary_value,
  lake_date_value, lake_time_value, lake_timestamp_value, lake_timestamptz_value,
}
use pg_analytics.Datafusion.Cell.Numbers.{lake_int2, lake_int4, lake_int8}
use pg_analytics.Datafusion.Cell.Floats.{lake_float4, lake_float8, lake_numeric, lake_text}
use pg_analytics.Datafusion.Cell.Temporal.{lake_date, lake_time, lake_timestamp, lake_timestamptz}

module _ (l : Libraries) (k : LakeLibraries) where
  open l use {Array}

  -- A branch that reads a null of the types that pass a test as nothing.
  abbrev pub LakeNullIsNone :
      (DataType → Bool) → (DataType → Array → ℕ → ℕ → Result (Option (Cell l))) → Type 0
  LakeNullIsNone test branch =
      (t : DataType) (array : Array) (index oid : ℕ)
      → test t ≡ true
      → null_at l t array index ≡ true
      → branch t array index oid ≡ ok none

  pub lake_int2-LakeNullIsNone : LakeNullIsNone (λ t. is_number t && not (is_i64 t)) (lake_int2 l k)
  unfolding lake_int2 lake_primitive_value lake_uint_value lake_decimal_value
  lake_int2-LakeNullIsNone (int i64) array index oid listed is_null = ground arith
  lake_int2-LakeNullIsNone (int k) array index oid listed is_null = ground arith
  lake_int2-LakeNullIsNone (float f16) array index oid listed is_null = ground arith
  lake_int2-LakeNullIsNone (float f32) array index oid listed is_null = ground arith
  lake_int2-LakeNullIsNone (float f64) array index oid listed is_null = ground arith
  lake_int2-LakeNullIsNone (decimal128 p s) array index oid listed is_null = ground arith
  lake_int2-LakeNullIsNone t array index oid listed is_null = ground arith

  pub lake_int4-LakeNullIsNone : LakeNullIsNone is_number (lake_int4 l k)
  unfolding lake_int4 lake_primitive_value lake_uint_value lake_decimal_value
  lake_int4-LakeNullIsNone (int k) array index oid listed is_null = ground arith
  lake_int4-LakeNullIsNone (float f16) array index oid listed is_null = ground arith
  lake_int4-LakeNullIsNone (float f32) array index oid listed is_null = ground arith
  lake_int4-LakeNullIsNone (float f64) array index oid listed is_null = ground arith
  lake_int4-LakeNullIsNone (decimal128 p s) array index oid listed is_null = ground arith
  lake_int4-LakeNullIsNone t array index oid listed is_null = ground arith

  pub lake_int8-LakeNullIsNone : LakeNullIsNone is_number (lake_int8 l k)
  unfolding lake_int8 lake_primitive_value lake_uint_value lake_decimal_value
  lake_int8-LakeNullIsNone (int k) array index oid listed is_null = ground arith
  lake_int8-LakeNullIsNone (float f16) array index oid listed is_null = ground arith
  lake_int8-LakeNullIsNone (float f32) array index oid listed is_null = ground arith
  lake_int8-LakeNullIsNone (float f64) array index oid listed is_null = ground arith
  lake_int8-LakeNullIsNone (decimal128 p s) array index oid listed is_null = ground arith
  lake_int8-LakeNullIsNone t array index oid listed is_null = ground arith

  pub lake_float4-LakeNullIsNone : LakeNullIsNone is_number (lake_float4 l k)
  unfolding lake_float4 lake_primitive_value lake_uint_value lake_decimal_value
  lake_float4-LakeNullIsNone (int k) array index oid listed is_null = ground arith
  lake_float4-LakeNullIsNone (float f16) array index oid listed is_null = ground arith
  lake_float4-LakeNullIsNone (float f32) array index oid listed is_null = ground arith
  lake_float4-LakeNullIsNone (float f64) array index oid listed is_null = ground arith
  lake_float4-LakeNullIsNone (decimal128 p s) array index oid listed is_null = ground arith
  lake_float4-LakeNullIsNone t array index oid listed is_null = ground arith

  pub lake_float8-LakeNullIsNone : LakeNullIsNone is_number (lake_float8 l k)
  unfolding lake_float8 lake_primitive_value lake_uint_value lake_decimal_value
  lake_float8-LakeNullIsNone (int k) array index oid listed is_null = ground arith
  lake_float8-LakeNullIsNone (float f16) array index oid listed is_null = ground arith
  lake_float8-LakeNullIsNone (float f32) array index oid listed is_null = ground arith
  lake_float8-LakeNullIsNone (float f64) array index oid listed is_null = ground arith
  lake_float8-LakeNullIsNone (decimal128 p s) array index oid listed is_null = ground arith
  lake_float8-LakeNullIsNone t array index oid listed is_null = ground arith

  pub lake_numeric-LakeNullIsNone : LakeNullIsNone is_number (lake_numeric l k)
  unfolding lake_numeric lake_primitive_value lake_uint_value
  lake_numeric-LakeNullIsNone (int k) array index oid listed is_null = ground arith
  lake_numeric-LakeNullIsNone (float f16) array index oid listed is_null = ground arith
  lake_numeric-LakeNullIsNone (float f32) array index oid listed is_null = ground arith
  lake_numeric-LakeNullIsNone (float f64) array index oid listed is_null = ground arith
  lake_numeric-LakeNullIsNone (decimal128 p s) array index oid listed is_null = ground arith
  lake_numeric-LakeNullIsNone t array index oid listed is_null = ground arith

  pub lake_text-LakeNullIsNone : LakeNullIsNone (λ t. is_string t || is_binary t) (lake_text l k)
  unfolding lake_text lake_primitive_value lake_binary_value
  lake_text-LakeNullIsNone utf8 array index oid listed is_null = ground arith
  lake_text-LakeNullIsNone large_utf8 array index oid listed is_null = ground arith
  lake_text-LakeNullIsNone binary array index oid listed is_null = ground arith
  lake_text-LakeNullIsNone large_binary array index oid listed is_null = ground arith
  lake_text-LakeNullIsNone t array index oid listed is_null = ground arith

  pub lake_date-LakeNullIsNone : LakeNullIsNone is_date (lake_date l k)
  unfolding lake_date lake_date_value
  lake_date-LakeNullIsNone date32 array index oid listed is_null = ground arith
  lake_date-LakeNullIsNone date64 array index oid listed is_null = ground arith
  lake_date-LakeNullIsNone t array index oid listed is_null = ground arith

  pub lake_time-LakeNullIsNone : LakeNullIsNone is_time (lake_time l k)
  unfolding lake_time lake_time_value
  lake_time-LakeNullIsNone (time32 unit) array index oid listed is_null = ground arith
  lake_time-LakeNullIsNone (time64 unit) array index oid listed is_null = ground arith
  lake_time-LakeNullIsNone t array index oid listed is_null = ground arith

  pub lake_timestamp-LakeNullIsNone : LakeNullIsNone is_timestamp (lake_timestamp l k)
  unfolding lake_timestamp lake_timestamp_value
  lake_timestamp-LakeNullIsNone (timestamp unit tz) array index oid listed is_null = ground arith
  lake_timestamp-LakeNullIsNone t array index oid listed is_null = ground arith

  pub lake_timestamptz-LakeNullIsNone : LakeNullIsNone is_timestamp (lake_timestamptz l k)
  unfolding lake_timestamptz lake_timestamptz_value
  lake_timestamptz-LakeNullIsNone (timestamp unit tz) array index oid listed is_null = ground arith
  lake_timestamptz-LakeNullIsNone t array index oid listed is_null = ground arith

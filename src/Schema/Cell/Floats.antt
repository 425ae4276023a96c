-- ===== src/Schema/Cell/Floats.antt =====
-- src/schema/cell.rs: the branches of `get_cell` for the floating point and numeric types of Postgres.
use pg_analytics.Prelude.{ℕ, Option}
use pg_analytics.Text.{Text}
use pg_analytics.Result.{Result, ok, ◌>>=◌}
use pg_analytics.Schema.Cell.Types.{
  DataType, int, float, decimal128, i8, i16, i32, i64, u8, u16, u32, u64, f16, f32, f64, int_array,
  float_array, decimal128_array,
}
use pg_analytics.Schema.Cell.Libraries.{Libraries}
use pg_analytics.Schema.Cell.Values.{get_primitive_value, get_uint_value, get_decimal_value}
use pg_analytics.Schema.Cell.Cells.{
  Cell, to_cell, try_cell, mismatch, f32_cell, f64_cell, numeric_cell,
}

module _ (l : Libraries) where
  open l use {
    f16_to_f32, f16_to_f64, f32_as_f64, f64_as_f32, int_as_f32, int_as_f64, Array, format_decimal,
    AnyNumeric, numeric_from_str, numeric_from_int, numeric_from_f32, numeric_from_f64,
    f32_from_numeric, f64_from_numeric,
  }

  -- The branch `FLOAT4OID` of `get_cell`.
  unfoldable pub get_float4 : DataType → Array → ℕ → ℕ → Text → Result (Option (Cell l))
  get_float4 (int i8) array index oid name =
      to_cell l (λ v. f32_cell (int_as_f32 v)) (get_primitive_value l (int_array i8) array index)
  get_float4 (int i16) array index oid name =
      to_cell l (λ v. f32_cell (int_as_f32 v)) (get_primitive_value l (int_array i16) array index)
  get_float4 (int i32) array index oid name =
      to_cell l (λ v. f32_cell (int_as_f32 v)) (get_primitive_value l (int_array i32) array index)
  get_float4 (int i64) array index oid name =
      to_cell l (λ v. f32_cell (int_as_f32 v)) (get_primitive_value l (int_array i64) array index)
  get_float4 (int u8) array index oid name =
      to_cell l (λ v. f32_cell (int_as_f32 v)) (get_uint_value l u8 array index)
  get_float4 (int u16) array index oid name =
      to_cell l (λ v. f32_cell (int_as_f32 v)) (get_uint_value l u16 array index)
  get_float4 (int u32) array index oid name =
      to_cell l (λ v. f32_cell (int_as_f32 v)) (get_uint_value l u32 array index)
  get_float4 (int u64) array index oid name =
      to_cell l (λ v. f32_cell (int_as_f32 v)) (get_uint_value l u64 array index)
  get_float4 (float f16) array index oid name =
      to_cell l (λ v. f32_cell (f16_to_f32 v)) (get_primitive_value l (float_array f16) array index)
  get_float4 (float f32) array index oid name =
      to_cell l f32_cell (get_primitive_value l (float_array f32) array index)
  get_float4 (float f64) array index oid name =
      to_cell l (λ v. f32_cell (f64_as_f32 v)) (get_primitive_value l (float_array f64) array index)
  get_float4 (decimal128 p s) array index oid name =
      to_cell l f32_cell (get_decimal_value l f32_from_numeric array index p s)
  get_float4 t array index oid name = mismatch l name t oid

  -- The branch `FLOAT8OID` of `get_cell`.
  unfoldable pub get_float8 : DataType → Array → ℕ → ℕ → Text → Result (Option (Cell l))
  get_float8 (int i8) array index oid name =
      to_cell l (λ v. f64_cell (int_as_f64 v)) (get_primitive_value l (int_array i8) array index)
  get_float8 (int i16) array index oid name =
      to_cell l (λ v. f64_cell (int_as_f64 v)) (get_primitive_value l (int_array i16) array index)
  get_float8 (int i32) array index oid name =
      to_cell l (λ v. f64_cell (int_as_f64 v)) (get_primitive_value l (int_array i32) array index)
  get_float8 (int i64) array index oid name =
      to_cell l (λ v. f64_cell (int_as_f64 v)) (get_primitive_value l (int_array i64) array index)
  get_float8 (int u8) array index oid name =
      to_cell l (λ v. f64_cell (int_as_f64 v)) (get_uint_value l u8 array index)
  get_float8 (int u16) array index oid name =
      to_cell l (λ v. f64_cell (int_as_f64 v)) (get_uint_value l u16 array index)
  get_float8 (int u32) array index oid name =
      to_cell l (λ v. f64_cell (int_as_f64 v)) (get_uint_value l u32 array index)
  get_float8 (int u64) array index oid name =
      to_cell l (λ v. f64_cell (int_as_f64 v)) (get_uint_value l u64 array index)
  get_float8 (float f16) array index oid name =
      to_cell l (λ v. f64_cell (f16_to_f64 v)) (get_primitive_value l (float_array f16) array index)
  get_float8 (float f32) array index oid name =
      to_cell l (λ v. f64_cell (f32_as_f64 v)) (get_primitive_value l (float_array f32) array index)
  get_float8 (float f64) array index oid name =
      to_cell l f64_cell (get_primitive_value l (float_array f64) array index)
  get_float8 (decimal128 p s) array index oid name =
      to_cell l f64_cell (get_decimal_value l f64_from_numeric array index p s)
  get_float8 t array index oid name = mismatch l name t oid

  abbrev numeric_of : Result AnyNumeric → Result (Cell l)
  numeric_of read = read >>= λ n. ok (numeric_cell n)

  -- The branch `NUMERICOID` of `get_cell`.
  unfoldable pub get_numeric : DataType → Array → ℕ → ℕ → Text → Result (Option (Cell l))
  get_numeric (int i8) array index oid name =
      to_cell l (λ v. numeric_cell (numeric_from_int v))
        (get_primitive_value l (int_array i8) array index)
  get_numeric (int i16) array index oid name =
      to_cell l (λ v. numeric_cell (numeric_from_int v))
        (get_primitive_value l (int_array i16) array index)
  get_numeric (int i32) array index oid name =
      to_cell l (λ v. numeric_cell (numeric_from_int v))
        (get_primitive_value l (int_array i32) array index)
  get_numeric (int i64) array index oid name =
      to_cell l (λ v. numeric_cell (numeric_from_int v))
        (get_primitive_value l (int_array i64) array index)
  get_numeric (int u8) array index oid name =
      to_cell l (λ v. numeric_cell (numeric_from_int v)) (get_uint_value l u8 array index)
  get_numeric (int u16) array index oid name =
      to_cell l (λ v. numeric_cell (numeric_from_int v)) (get_uint_value l u16 array index)
  get_numeric (int u32) array index oid name =
      to_cell l (λ v. numeric_cell (numeric_from_int v)) (get_uint_value l u32 array index)
  get_numeric (int u64) array index oid name =
      to_cell l (λ v. numeric_cell (numeric_from_int v)) (get_uint_value l u64 array index)
  get_numeric (float f16) array index oid name =
      try_cell l (λ v. numeric_of (numeric_from_f32 (f16_to_f32 v)))
        (get_primitive_value l (float_array f16) array index)
  get_numeric (float f32) array index oid name =
      try_cell l (λ v. numeric_of (numeric_from_f32 v))
        (get_primitive_value l (float_array f32) array index)
  get_numeric (float f64) array index oid name =
      try_cell l (λ v. numeric_of (numeric_from_f64 v))
        (get_primitive_value l (float_array f64) array index)
  get_numeric (decimal128 p s) array index oid name =
      try_cell l (λ v. numeric_of (numeric_from_str (format_decimal v p s)))
        (get_primitive_value l decimal128_array array index)
  get_numeric t array index oid name = mismatch l name t oid

-- ===== src/Datafusion/Cell/Floats.antt =====
-- src/datafusion/src/schema/cell.rs: the branches of `get_cell` for floating point numbers, numerics and
-- texts.
use pg_analytics.Prelude.{ℕ, Option}
use pg_analytics.Result.{Result, ok, ◌>>=◌}
use pg_analytics.Schema.Cell.Types.{
  DataType, int, float, decimal128, i8, i16, i32, i64, u8, u16, u32, u64, f16, f32, f64, int_array,
  float_array, decimal128_array, utf8, large_utf8, binary, large_binary, string_array,
  large_string_array, binary_array, large_binary_array,
}
use pg_analytics.Schema.Cell.Libraries.{Libraries}
use pg_analytics.Schema.Cell.Cells.{
  Cell, to_cell, try_cell, f32_cell, f64_cell, numeric_cell, string_cell,
}
use pg_analytics.Datafusion.Cell.Values.{
  LakeLibraries, lake_primitive_value, lake_uint_value, lake_decimal_value, lake_mismatch,
  lake_binary_value,
}

module _ (l : Libraries) (k : LakeLibraries) where
  open l use {
    f16_to_f32, f16_to_f64, f32_as_f64, f64_as_f32, int_as_f32, int_as_f64, Array, format_decimal,
    AnyNumeric, numeric_from_str, numeric_from_int, numeric_from_f32, numeric_from_f64,
    f32_from_numeric, f64_from_numeric,
  }

  -- The branch `FLOAT4OID` of `get_cell`.
  unfoldable pub lake_float4 : DataType → Array → ℕ → ℕ → Result (Option (Cell l))
  lake_float4 (int i8) array index oid =
      to_cell l (λ v. f32_cell (int_as_f32 v)) (lake_primitive_value l k (int_array i8) array index)
  lake_float4 (int i16) array index oid =
      to_cell l (λ v. f32_cell (int_as_f32 v))
        (lake_primitive_value l k (int_array i16) array index)
  lake_float4 (int i32) array index oid =
      to_cell l (λ v. f32_cell (int_as_f32 v))
        (lake_primitive_value l k (int_array i32) array index)
  lake_float4 (int i64) array index oid =
      to_cell l (λ v. f32_cell (int_as_f32 v))
        (lake_primitive_value l k (int_array i64) array index)
  lake_float4 (int u8) array index oid =
      to_cell l (λ v. f32_cell (int_as_f32 v)) (lake_uint_value l k u8 array index)
  lake_float4 (int u16) array index oid =
      to_cell l (λ v. f32_cell (int_as_f32 v)) (lake_uint_value l k u16 array index)
  lake_float4 (int u32) array index oid =
      to_cell l (λ v. f32_cell (int_as_f32 v)) (lake_uint_value l k u32 array index)
  lake_float4 (int u64) array index oid =
      to_cell l (λ v. f32_cell (int_as_f32 v)) (lake_uint_value l k u64 array index)
  lake_float4 (float f16) array index oid =
      to_cell l (λ v. f32_cell (f16_to_f32 v))
        (lake_primitive_value l k (float_array f16) array index)
  lake_float4 (float f32) array index oid =
      to_cell l f32_cell (lake_primitive_value l k (float_array f32) array index)
  lake_float4 (float f64) array index oid =
      to_cell l (λ v. f32_cell (f64_as_f32 v))
        (lake_primitive_value l k (float_array f64) array index)
  lake_float4 (decimal128 p s) array index oid =
      to_cell l f32_cell (lake_decimal_value l k f32_from_numeric array index p s)
  lake_float4 t array index oid = lake_mismatch l k t oid

  -- The branch `FLOAT8OID` of `get_cell`.
  unfoldable pub lake_float8 : DataType → Array → ℕ → ℕ → Result (Option (Cell l))
  lake_float8 (int i8) array index oid =
      to_cell l (λ v. f64_cell (int_as_f64 v)) (lake_primitive_value l k (int_array i8) array index)
  lake_float8 (int i16) array index oid =
      to_cell l (λ v. f64_cell (int_as_f64 v))
        (lake_primitive_value l k (int_array i16) array index)
  lake_float8 (int i32) array index oid =
      to_cell l (λ v. f64_cell (int_as_f64 v))
        (lake_primitive_value l k (int_array i32) array index)
  lake_float8 (int i64) array index oid =
      to_cell l (λ v. f64_cell (int_as_f64 v))
        (lake_primitive_value l k (int_array i64) array index)
  lake_float8 (int u8) array index oid =
      to_cell l (λ v. f64_cell (int_as_f64 v)) (lake_uint_value l k u8 array index)
  lake_float8 (int u16) array index oid =
      to_cell l (λ v. f64_cell (int_as_f64 v)) (lake_uint_value l k u16 array index)
  lake_float8 (int u32) array index oid =
      to_cell l (λ v. f64_cell (int_as_f64 v)) (lake_uint_value l k u32 array index)
  lake_float8 (int u64) array index oid =
      to_cell l (λ v. f64_cell (int_as_f64 v)) (lake_uint_value l k u64 array index)
  lake_float8 (float f16) array index oid =
      to_cell l (λ v. f64_cell (f16_to_f64 v))
        (lake_primitive_value l k (float_array f16) array index)
  lake_float8 (float f32) array index oid =
      to_cell l (λ v. f64_cell (f32_as_f64 v))
        (lake_primitive_value l k (float_array f32) array index)
  lake_float8 (float f64) array index oid =
      to_cell l f64_cell (lake_primitive_value l k (float_array f64) array index)
  lake_float8 (decimal128 p s) array index oid =
      to_cell l f64_cell (lake_decimal_value l k f64_from_numeric array index p s)
  lake_float8 t array index oid = lake_mismatch l k t oid

  abbrev numeric_of : Result AnyNumeric → Result (Cell l)
  numeric_of read = read >>= λ n. ok (numeric_cell n)

  -- The branch `NUMERICOID` of `get_cell`.
  unfoldable pub lake_numeric : DataType → Array → ℕ → ℕ → Result (Option (Cell l))
  lake_numeric (int i8) array index oid =
      to_cell l (λ v. numeric_cell (numeric_from_int v))
        (lake_primitive_value l k (int_array i8) array index)
  lake_numeric (int i16) array index oid =
      to_cell l (λ v. numeric_cell (numeric_from_int v))
        (lake_primitive_value l k (int_array i16) array index)
  lake_numeric (int i32) array index oid =
      to_cell l (λ v. numeric_cell (numeric_from_int v))
        (lake_primitive_value l k (int_array i32) array index)
  lake_numeric (int i64) array index oid =
      to_cell l (λ v. numeric_cell (numeric_from_int v))
        (lake_primitive_value l k (int_array i64) array index)
  lake_numeric (int u8) array index oid =
      to_cell l (λ v. numeric_cell (numeric_from_int v)) (lake_uint_value l k u8 array index)
  lake_numeric (int u16) array index oid =
      to_cell l (λ v. numeric_cell (numeric_from_int v)) (lake_uint_value l k u16 array index)
  lake_numeric (int u32) array index oid =
      to_cell l (λ v. numeric_cell (numeric_from_int v)) (lake_uint_value l k u32 array index)
  lake_numeric (int u64) array index oid =
      to_cell l (λ v. numeric_cell (numeric_from_int v)) (lake_uint_value l k u64 array index)
  lake_numeric (float f16) array index oid =
      try_cell l (λ v. numeric_of (numeric_from_f32 (f16_to_f32 v)))
        (lake_primitive_value l k (float_array f16) array index)
  lake_numeric (float f32) array index oid =
      try_cell l (λ v. numeric_of (numeric_from_f32 v))
        (lake_primitive_value l k (float_array f32) array index)
  lake_numeric (float f64) array index oid =
      try_cell l (λ v. numeric_of (numeric_from_f64 v))
        (lake_primitive_value l k (float_array f64) array index)
  lake_numeric (decimal128 p s) array index oid =
      try_cell l (λ v. numeric_of (numeric_from_str (format_decimal v p s)))
        (lake_primitive_value l k decimal128_array array index)
  lake_numeric t array index oid = lake_mismatch l k t oid

  -- The branch `TEXTOID | VARCHAROID | BPCHAROID | BYTEAOID` of `get_cell`.
  unfoldable pub lake_text : DataType → Array → ℕ → ℕ → Result (Option (Cell l))
  lake_text utf8 array index oid =
      to_cell l string_cell (lake_primitive_value l k string_array array index)
  lake_text large_utf8 array index oid =
      to_cell l string_cell (lake_primitive_value l k large_string_array array index)
  lake_text binary array index oid =
      to_cell l string_cell (lake_binary_value l k binary_array (λ b. b) array index)
  lake_text large_binary array index oid =
      to_cell l string_cell (lake_binary_value l k large_binary_array (λ b. b) array index)
  lake_text t array index oid = lake_mismatch l k t oid

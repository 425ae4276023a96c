-- ===== src/Datafusion/Cell/Numbers.antt =====
-- src/datafusion/src/schema/cell.rs: the branches of `get_cell` for the integer types of Postgres.
use pg_analytics.Prelude.{ℕ, Option}
use pg_analytics.Result.{Result}
use pg_analytics.Schema.Integers.{cast, half_i16, half_i32, half_i64}
use pg_analytics.Schema.Cell.Types.{
  DataType, int, float, decimal128, i8, i16, i32, i64, u8, u16, u32, u64, f16, f32, f64, int_array,
  float_array,
}
use pg_analytics.Schema.Cell.Libraries.{Libraries}
use pg_analytics.Schema.Cell.Cells.{Cell, to_cell, i16_cell, i32_cell, i64_cell}
use pg_analytics.Datafusion.Cell.Values.{
  LakeLibraries, lake_primitive_value, lake_uint_value, lake_decimal_value, lake_mismatch,
}

module _ (l : Libraries) (k : LakeLibraries) where
  open l use {f16_to_f32, f32_as_int, f64_as_int, Array, int_from_numeric}

  -- The branch `INT2OID` of `get_cell`.
  unfoldable pub lake_int2 : DataType → Array → ℕ → ℕ → Result (Option (Cell l))
  lake_int2 (int i8) array index oid =
      to_cell l (λ v. i16_cell (cast half_i16 v))
        (lake_primitive_value l k (int_array i8) array index)
  lake_int2 (int i16) array index oid =
      to_cell l i16_cell (lake_primitive_value l k (int_array i16) array index)
  lake_int2 (int i32) array index oid =
      to_cell l (λ v. i16_cell (cast half_i16 v))
        (lake_primitive_value l k (int_array i32) array index)
  lake_int2 (int i64) array index oid =
      to_cell l (λ v. i16_cell (cast half_i16 v)) (lake_uint_value l k u8 array index)
  lake_int2 (int u8) array index oid =
      to_cell l (λ v. i16_cell (cast half_i16 v)) (lake_uint_value l k u8 array index)
  lake_int2 (int u16) array index oid =
      to_cell l (λ v. i16_cell (cast half_i16 v)) (lake_uint_value l k u16 array index)
  lake_int2 (int u32) array index oid =
      to_cell l (λ v. i16_cell (cast half_i16 v)) (lake_uint_value l k u32 array index)
  lake_int2 (int u64) array index oid =
      to_cell l (λ v. i16_cell (cast half_i16 v)) (lake_uint_value l k u64 array index)
  lake_int2 (float f16) array index oid =
      to_cell l (λ v. i16_cell (f32_as_int half_i16 (f16_to_f32 v)))
        (lake_primitive_value l k (float_array f16) array index)
  lake_int2 (float f32) array index oid =
      to_cell l (λ v. i16_cell (f32_as_int half_i16 v))
        (lake_primitive_value l k (float_array f32) array index)
  lake_int2 (float f64) array index oid =
      to_cell l (λ v. i16_cell (f64_as_int half_i16 v))
        (lake_primitive_value l k (float_array f64) array index)
  lake_int2 (decimal128 p s) array index oid =
      to_cell l i16_cell (lake_decimal_value l k (int_from_numeric half_i16) array index p s)
  lake_int2 t array index oid = lake_mismatch l k t oid

  -- The branch `INT4OID` of `get_cell`.
  unfoldable pub lake_int4 : DataType → Array → ℕ → ℕ → Result (Option (Cell l))
  lake_int4 (int i8) array index oid =
      to_cell l (λ v. i32_cell (cast half_i32 v))
        (lake_primitive_value l k (int_array i8) array index)
  lake_int4 (int i16) array index oid =
      to_cell l (λ v. i32_cell (cast half_i32 v))
        (lake_primitive_value l k (int_array i16) array index)
  lake_int4 (int i32) array index oid =
      to_cell l i32_cell (lake_primitive_value l k (int_array i32) array index)
  lake_int4 (int i64) array index oid =
      to_cell l (λ v. i32_cell (cast half_i32 v))
        (lake_primitive_value l k (int_array i64) array index)
  lake_int4 (int u8) array index oid =
      to_cell l (λ v. i32_cell (cast half_i32 v)) (lake_uint_value l k u8 array index)
  lake_int4 (int u16) array index oid =
      to_cell l (λ v. i32_cell (cast half_i32 v)) (lake_uint_value l k u16 array index)
  lake_int4 (int u32) array index oid =
      to_cell l (λ v. i32_cell (cast half_i32 v)) (lake_uint_value l k u32 array index)
  lake_int4 (int u64) array index oid =
      to_cell l (λ v. i32_cell (cast half_i32 v)) (lake_uint_value l k u64 array index)
  lake_int4 (float f16) array index oid =
      to_cell l (λ v. i32_cell (f32_as_int half_i32 (f16_to_f32 v)))
        (lake_primitive_value l k (float_array f16) array index)
  lake_int4 (float f32) array index oid =
      to_cell l (λ v. i32_cell (f32_as_int half_i32 v))
        (lake_primitive_value l k (float_array f32) array index)
  lake_int4 (float f64) array index oid =
      to_cell l (λ v. i32_cell (f64_as_int half_i32 v))
        (lake_primitive_value l k (float_array f64) array index)
  lake_int4 (decimal128 p s) array index oid =
      to_cell l i32_cell (lake_decimal_value l k (int_from_numeric half_i32) array index p s)
  lake_int4 t array index oid = lake_mismatch l k t oid

  -- The branch `INT8OID` of `get_cell`.
  unfoldable pub lake_int8 : DataType → Array → ℕ → ℕ → Result (Option (Cell l))
  lake_int8 (int i8) array index oid =
      to_cell l (λ v. i64_cell (cast half_i64 v))
        (lake_primitive_value l k (int_array i8) array index)
  lake_int8 (int i16) array index oid =
      to_cell l (λ v. i64_cell (cast half_i64 v))
        (lake_primitive_value l k (int_array i16) array index)
  lake_int8 (int i32) array index oid =
      to_cell l (λ v. i64_cell (cast half_i64 v))
        (lake_primitive_value l k (int_array i32) array index)
  lake_int8 (int i64) array index oid =
      to_cell l i64_cell (lake_primitive_value l k (int_array i64) array index)
  lake_int8 (int u8) array index oid = to_cell l i64_cell (lake_uint_value l k u8 array index)
  lake_int8 (int u16) array index oid = to_cell l i64_cell (lake_uint_value l k u16 array index)
  lake_int8 (int u32) array index oid = to_cell l i64_cell (lake_uint_value l k u32 array index)
  lake_int8 (int u64) array index oid = to_cell l i64_cell (lake_uint_value l k u64 array index)
  lake_int8 (float f16) array index oid =
      to_cell l (λ v. i64_cell (f32_as_int half_i64 (f16_to_f32 v)))
        (lake_primitive_value l k (float_array f16) array index)
  lake_int8 (float f32) array index oid =
      to_cell l (λ v. i64_cell (f32_as_int half_i64 v))
        (lake_primitive_value l k (float_array f32) array index)
  lake_int8 (float f64) array index oid =
      to_cell l (λ v. i64_cell (f64_as_int half_i64 v))
        (lake_primitive_value l k (float_array f64) array index)
  lake_int8 (decimal128 p s) array index oid =
      to_cell l i64_cell (lake_decimal_value l k (int_from_numeric half_i64) array index p s)
  lake_int8 t array index oid = lake_mismatch l k t oid

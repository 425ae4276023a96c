-- ===== src/Schema/Cell/Numbers.antt =====
-- src/schema/cell.rs: the branches of `get_cell` for the integer types of Postgres.
use pg_analytics.Prelude.{ℕ, Option}
use pg_analytics.Text.{Text}
use pg_analytics.Result.{Result}
use pg_analytics.Schema.Integers.{cast, half_i16, half_i32, half_i64}
use pg_analytics.Schema.Cell.Types.{
  DataType, int, float, decimal128, i8, i16, i32, i64, u8, u16, u32, u64, f16, f32, f64, int_array,
  float_array,
}
use pg_analytics.Schema.Cell.Libraries.{Libraries}
use pg_analytics.Schema.Cell.Values.{get_primitive_value, get_uint_value, get_decimal_value}
use pg_analytics.Schema.Cell.Cells.{Cell, to_cell, mismatch, i16_cell, i32_cell, i64_cell}

module _ (l : Libraries) where
  open l use {f16_to_f32, f32_as_int, f64_as_int, Array, int_from_numeric}

  -- The branch `INT2OID` of `get_cell`.
  unfoldable pub get_int2 : DataType → Array → ℕ → ℕ → Text → Result (Option (Cell l))
  get_int2 (int i8) array index oid name =
      to_cell l (λ v. i16_cell (cast half_i16 v)) (get_primitive_value l (int_array i8) array index)
  get_int2 (int i16) array index oid name =
      to_cell l i16_cell (get_primitive_value l (int_array i16) array index)
  get_int2 (int i32) array index oid name =
      to_cell l (λ v. i16_cell (cast half_i16 v))
        (get_primitive_value l (int_array i32) array index)
  get_int2 (int i64) array index oid name =
      to_cell l (λ v. i16_cell (cast half_i16 v)) (get_uint_value l u8 array index)
  get_int2 (int u8) array index oid name =
      to_cell l (λ v. i16_cell (cast half_i16 v)) (get_uint_value l u8 array index)
  get_int2 (int u16) array index oid name =
      to_cell l (λ v. i16_cell (cast half_i16 v)) (get_uint_value l u16 array index)
  get_int2 (int u32) array index oid name =
      to_cell l (λ v. i16_cell (cast half_i16 v)) (get_uint_value l u32 array index)
  get_int2 (int u64) array index oid name =
      to_cell l (λ v. i16_cell (cast half_i16 v)) (get_uint_value l u64 array index)
  get_int2 (float f16) array index oid name =
      to_cell l (λ v. i16_cell (f32_as_int half_i16 (f16_to_f32 v)))
        (get_primitive_value l (float_array f16) array index)
  get_int2 (float f32) array index oid name =
      to_cell l (λ v. i16_cell (f32_as_int half_i16 v))
        (get_primitive_value l (float_array f32) array index)
  get_int2 (float f64) array index oid name =
      to_cell l (λ v. i16_cell (f64_as_int half_i16 v))
        (get_primitive_value l (float_array f64) array index)
  get_int2 (decimal128 p s) array index oid name =
      to_cell l i16_cell (get_decimal_value l (int_from_numeric half_i16) array index p s)
  get_int2 t array index oid name = mismatch l name t oid

  -- The branch `INT4OID` of `get_cell`.
  unfoldable pub get_int4 : DataType → Array → ℕ → ℕ → Text → Result (Option (Cell l))
  get_int4 (int i8) array index oid name =
      to_cell l (λ v. i32_cell (cast half_i32 v)) (get_primitive_value l (int_array i8) array index)
  get_int4 (int i16) array index oid name =
      to_cell l (λ v. i32_cell (cast half_i32 v))
        (get_primitive_value l (int_array i16) array index)
  get_int4 (int i32) array index oid name =
      to_cell l i32_cell (get_primitive_value l (int_array i32) array index)
  get_int4 (int i64) array index oid name =
      to_cell l (λ v. i32_cell (cast half_i32 v))
        (get_primitive_value l (int_array i64) array index)
  get_int4 (int u8) array index oid name =
      to_cell l (λ v. i32_cell (cast half_i32 v)) (get_uint_value l u8 array index)
  get_int4 (int u16) array index oid name =
      to_cell l (λ v. i32_cell (cast half_i32 v)) (get_uint_value l u16 array index)
  get_int4 (int u32) array index oid name =
      to_cell l (λ v. i32_cell (cast half_i32 v)) (get_uint_value l u32 array index)
  get_int4 (int u64) array index oid name =
      to_cell l (λ v. i32_cell (cast half_i32 v)) (get_uint_value l u64 array index)
  get_int4 (float f16) array index oid name =
      to_cell l (λ v. i32_cell (f32_as_int half_i32 (f16_to_f32 v)))
        (get_primitive_value l (float_array f16) array index)
  get_int4 (float f32) array index oid name =
      to_cell l (λ v. i32_cell (f32_as_int half_i32 v))
        (get_primitive_value l (float_array f32) array index)
  get_int4 (float f64) array index oid name =
      to_cell l (λ v. i32_cell (f64_as_int half_i32 v))
        (get_primitive_value l (float_array f64) array index)
  get_int4 (decimal128 p s) array index oid name =
      to_cell l i32_cell (get_decimal_value l (int_from_numeric half_i32) array index p s)
  get_int4 t array index oid name = mismatch l name t oid

  -- The branch `INT8OID` of `get_cell`.
  unfoldable pub get_int8 : DataType → Array → ℕ → ℕ → Text → Result (Option (Cell l))
  get_int8 (int i8) array index oid name =
      to_cell l (λ v. i64_cell (cast half_i64 v)) (get_primitive_value l (int_array i8) array index)
  get_int8 (int i16) array index oid name =
      to_cell l (λ v. i64_cell (cast half_i64 v))
        (get_primitive_value l (int_array i16) array index)
  get_int8 (int i32) array index oid name =
      to_cell l (λ v. i64_cell (cast half_i64 v))
        (get_primitive_value l (int_array i32) array index)
  get_int8 (int i64) array index oid name =
      to_cell l i64_cell (get_primitive_value l (int_array i64) array index)
  get_int8 (int u8) array index oid name =
      to_cell l (λ v. i64_cell (cast half_i64 v)) (get_uint_value l u8 array index)
  get_int8 (int u16) array index oid name =
      to_cell l (λ v. i64_cell (cast half_i64 v)) (get_uint_value l u16 array index)
  get_int8 (int u32) array index oid name =
      to_cell l (λ v. i64_cell (cast half_i64 v)) (get_uint_value l u32 array index)
  get_int8 (int u64) array index oid name =
      to_cell l (λ v. i64_cell (cast half_i64 v)) (get_uint_value l u64 array index)
  get_int8 (float f16) array index oid name =
      to_cell l (λ v. i64_cell (f32_as_int half_i64 (f16_to_f32 v)))
        (get_primitive_value l (float_array f16) array index)
  get_int8 (float f32) array index oid name =
      to_cell l (λ v. i64_cell (f32_as_int half_i64 v))
        (get_primitive_value l (float_array f32) array index)
  get_int8 (float f64) array index oid name =
      to_cell l (λ v. i64_cell (f64_as_int half_i64 v))
        (get_primitive_value l (float_array f64) array index)
  get_int8 (decimal128 p s) array index oid name =
      to_cell l i64_cell (get_decimal_value l (int_from_numeric half_i64) array index p s)
  get_int8 t array index oid name = mismatch l name t oid

-- ===== src/Datafusion/Cell/Refined/Branches.antt =====
-- The branches of the two `get_cell` for integers, and what all the branches share.
use pg_analytics.Prelude.{ℕ, arith, Option, some, none, inl, inr}
use pg_analytics.Text.{Text}
use pg_analytics.Result.{Result, ok, Result-cases}
use pg_analytics.Schema.Integers.{cast, half_i64, half_i16, half_i32}
use pg_analytics.Schema.Cell.Types.{
  DataType, int, float, decimal128, i8, i16, i32, i64, u8, u16, u32, u64, f16, f32, f64, int_array,
  IntType, float_array,
}
use pg_analytics.Schema.Cell.Libraries.{Libraries}
use pg_analytics.Schema.Cell.Values.{get_uint_value}
use pg_analytics.Schema.Cell.Cells.{Cell, to_cell, try_cell, i64_cell, i16_cell, i32_cell}
use pg_analytics.Schema.Cell.Numbers.{get_int2, get_int4, get_int8}
use pg_analytics.Datafusion.Cell.Values.{LakeLibraries, lake_uint_value, lake_mismatch}
use pg_analytics.Datafusion.Cell.Numbers.{lake_int2, lake_int4, lake_int8}
use pg_analytics.Datafusion.Cell.Refined.{
  Refines, NullLaw, Utf8Law, primitive_Refines, decimal_Refines, uint_Refines, uint_InRange,
}

module _ (l : Libraries) (k : LakeLibraries) (null_law : NullLaw l k) (utf8_law : Utf8Law l k) where
  open l use {
    f16_to_f32, f16_to_f64, f32_as_f64, f64_as_f32, f32_as_int, f64_as_int, int_as_f32, int_as_f64,
    Array, format_decimal, numeric_from_str, numeric_from_int, numeric_from_f32, numeric_from_f64,
    int_from_numeric, f32_from_numeric, f64_from_numeric,
  }

  pub cell_Refines :
      {A : Type 0} (f : A → Result (Cell l)) (earlier later : Result (Option A))
      → Refines l k earlier later
      → Refines l k (try_cell l f earlier) (try_cell l f later)
  cell_Refines f earlier later same c h = elim (Result-cases earlier) [
    | inl (o, e) ↦ rw (same o e) (rw e at h)
    | inr (failure, e) ↦ ground (arith, h, e)
  ]

  int8_uint_Refines :
      (t : IntType) (array : Array) (index : ℕ)
      → Refines l k
          (to_cell l i64_cell (lake_uint_value l k t array index))
          (to_cell l (λ v. i64_cell (cast half_i64 v)) (get_uint_value l t array index))
  int8_uint_Refines t array index c h = elim (Result-cases (lake_uint_value l k t array index)) [
    | inl (none, e) ↦ rw (uint_Refines l k null_law t array index none e) (rw e at h)
    | inl (some v, e) ↦
        rw (uint_Refines l k null_law t array index (some v) e, uint_InRange l k t array index v e)
          (rw e at h)
    | inr (failure, e) ↦ ground (arith, h, e)
  ]

  pub lake_int2-Refines :
      (t : DataType) (array : Array) (index oid : ℕ) (name : Text)
      → Refines l k (lake_int2 l k t array index oid) (get_int2 l t array index oid name)
  unfolding lake_int2 get_int2 lake_mismatch
  lake_int2-Refines (int i8) array index oid name =
      cell_Refines (λ v. ok (i16_cell (cast half_i16 v))) _ _
        (primitive_Refines l k (int_array i8) array index)
  lake_int2-Refines (int i16) array index oid name =
      cell_Refines (λ v. ok (i16_cell v)) _ _ (primitive_Refines l k (int_array i16) array index)
  lake_int2-Refines (int i32) array index oid name =
      cell_Refines (λ v. ok (i16_cell (cast half_i16 v))) _ _
        (primitive_Refines l k (int_array i32) array index)
  lake_int2-Refines (int i64) array index oid name =
      cell_Refines (λ v. ok (i16_cell (cast half_i16 v))) _ _
        (uint_Refines l k null_law u8 array index)
  lake_int2-Refines (int u8) array index oid name =
      cell_Refines (λ v. ok (i16_cell (cast half_i16 v))) _ _
        (uint_Refines l k null_law u8 array index)
  lake_int2-Refines (int u16) array index oid name =
      cell_Refines (λ v. ok (i16_cell (cast half_i16 v))) _ _
        (uint_Refines l k null_law u16 array index)
  lake_int2-Refines (int u32) array index oid name =
      cell_Refines (λ v. ok (i16_cell (cast half_i16 v))) _ _
        (uint_Refines l k null_law u32 array index)
  lake_int2-Refines (int u64) array index oid name =
      cell_Refines (λ v. ok (i16_cell (cast half_i16 v))) _ _
        (uint_Refines l k null_law u64 array index)
  lake_int2-Refines (float f16) array index oid name =
      cell_Refines (λ v. ok (i16_cell (f32_as_int half_i16 (f16_to_f32 v)))) _ _
        (primitive_Refines l k (float_array f16) array index)
  lake_int2-Refines (float f32) array index oid name =
      cell_Refines (λ v. ok (i16_cell (f32_as_int half_i16 v))) _ _
        (primitive_Refines l k (float_array f32) array index)
  lake_int2-Refines (float f64) array index oid name =
      cell_Refines (λ v. ok (i16_cell (f64_as_int half_i16 v))) _ _
        (primitive_Refines l k (float_array f64) array index)
  lake_int2-Refines (decimal128 p s) array index oid name =
      cell_Refines (λ v. ok (i16_cell v)) _ _
        (decimal_Refines l k (int_from_numeric half_i16) array index p s)
  lake_int2-Refines t array index oid name = λ c h. ground (arith, h)

  pub lake_int4-Refines :
      (t : DataType) (array : Array) (index oid : ℕ) (name : Text)
      → Refines l k (lake_int4 l k t array index oid) (get_int4 l t array index oid name)
  unfolding lake_int4 get_int4 lake_mismatch
  lake_int4-Refines (int i8) array index oid name =
      cell_Refines (λ v. ok (i32_cell (cast half_i32 v))) _ _
        (primitive_Refines l k (int_array i8) array index)
  lake_int4-Refines (int i16) array index oid name =
      cell_Refines (λ v. ok (i32_cell (cast half_i32 v))) _ _
        (primitive_Refines l k (int_array i16) array index)
  lake_int4-Refines (int i32) array index oid name =
      cell_Refines (λ v. ok (i32_cell v)) _ _ (primitive_Refines l k (int_array i32) array index)
  lake_int4-Refines (int i64) array index oid name =
      cell_Refines (λ v. ok (i32_cell (cast half_i32 v))) _ _
        (primitive_Refines l k (int_array i64) array index)
  lake_int4-Refines (int u8) array index oid name =
      cell_Refines (λ v. ok (i32_cell (cast half_i32 v))) _ _
        (uint_Refines l k null_law u8 array index)
  lake_int4-Refines (int u16) array index oid name =
      cell_Refines (λ v. ok (i32_cell (cast half_i32 v))) _ _
        (uint_Refines l k null_law u16 array index)
  lake_int4-Refines (int u32) array index oid name =
      cell_Refines (λ v. ok (i32_cell (cast half_i32 v))) _ _
        (uint_Refines l k null_law u32 array index)
  lake_int4-Refines (int u64) array index oid name =
      cell_Refines (λ v. ok (i32_cell (cast half_i32 v))) _ _
        (uint_Refines l k null_law u64 array index)
  lake_int4-Refines (float f16) array index oid name =
      cell_Refines (λ v. ok (i32_cell (f32_as_int half_i32 (f16_to_f32 v)))) _ _
        (primitive_Refines l k (float_array f16) array index)
  lake_int4-Refines (float f32) array index oid name =
      cell_Refines (λ v. ok (i32_cell (f32_as_int half_i32 v))) _ _
        (primitive_Refines l k (float_array f32) array index)
  lake_int4-Refines (float f64) array index oid name =
      cell_Refines (λ v. ok (i32_cell (f64_as_int half_i32 v))) _ _
        (primitive_Refines l k (float_array f64) array index)
  lake_int4-Refines (decimal128 p s) array index oid name =
      cell_Refines (λ v. ok (i32_cell v)) _ _
        (decimal_Refines l k (int_from_numeric half_i32) array index p s)
  lake_int4-Refines t array index oid name = λ c h. ground (arith, h)

  pub lake_int8-Refines :
      (t : DataType) (array : Array) (index oid : ℕ) (name : Text)
      → Refines l k (lake_int8 l k t array index oid) (get_int8 l t array index oid name)
  unfolding lake_int8 get_int8 lake_mismatch
  lake_int8-Refines (int i8) array index oid name =
      cell_Refines (λ v. ok (i64_cell (cast half_i64 v))) _ _
        (primitive_Refines l k (int_array i8) array index)
  lake_int8-Refines (int i16) array index oid name =
      cell_Refines (λ v. ok (i64_cell (cast half_i64 v))) _ _
        (primitive_Refines l k (int_array i16) array index)
  lake_int8-Refines (int i32) array index oid name =
      cell_Refines (λ v. ok (i64_cell (cast half_i64 v))) _ _
        (primitive_Refines l k (int_array i32) array index)
  lake_int8-Refines (int i64) array index oid name =
      cell_Refines (λ v. ok (i64_cell v)) _ _ (primitive_Refines l k (int_array i64) array index)
  lake_int8-Refines (int u8) array index oid name = int8_uint_Refines u8 array index
  lake_int8-Refines (int u16) array index oid name = int8_uint_Refines u16 array index
  lake_int8-Refines (int u32) array index oid name = int8_uint_Refines u32 array index
  lake_int8-Refines (int u64) array index oid name = int8_uint_Refines u64 array index
  lake_int8-Refines (float f16) array index oid name =
      cell_Refines (λ v. ok (i64_cell (f32_as_int half_i64 (f16_to_f32 v)))) _ _
        (primitive_Refines l k (float_array f16) array index)
  lake_int8-Refines (float f32) array index oid name =
      cell_Refines (λ v. ok (i64_cell (f32_as_int half_i64 v))) _ _
        (primitive_Refines l k (float_array f32) array index)
  lake_int8-Refines (float f64) array index oid name =
      cell_Refines (λ v. ok (i64_cell (f64_as_int half_i64 v))) _ _
        (primitive_Refines l k (float_array f64) array index)
  lake_int8-Refines (decimal128 p s) array index oid name =
      cell_Refines (λ v. ok (i64_cell v)) _ _
        (decimal_Refines l k (int_from_numeric half_i64) array index p s)
  lake_int8-Refines t array index oid name = λ c h. ground (arith, h)

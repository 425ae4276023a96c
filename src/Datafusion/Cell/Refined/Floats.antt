-- ===== src/Datafusion/Cell/Refined/Floats.antt =====
-- The branches of the two `get_cell` for floating point numbers, numerics and texts.
use pg_analytics.Prelude.{ℕ, arith}
use pg_analytics.Text.{Text}
use pg_analytics.Result.{ok, ◌>>=◌}
use pg_analytics.Schema.Cell.Types.{
  DataType, int, float, decimal128, i8, i16, i32, i64, u8, u16, u32, u64, f16, f32, f64, int_array,
  float_array, decimal128_array, utf8, large_utf8, binary, large_binary, string_array,
  large_string_array, binary_array, large_binary_array,
}
use pg_analytics.Schema.Cell.Libraries.{Libraries}
use pg_analytics.Schema.Cell.Cells.{f32_cell, f64_cell, numeric_cell, string_cell}
use pg_analytics.Schema.Cell.Floats.{get_float4, get_float8, get_numeric}
use pg_analytics.Schema.Cell.Documents.{get_text}
use pg_analytics.Datafusion.Cell.Values.{LakeLibraries, lake_mismatch}
use pg_analytics.Datafusion.Cell.Floats.{lake_float4, lake_float8, lake_numeric, lake_text}
use pg_analytics.Datafusion.Cell.Refined.{
  Refines, NullLaw, Utf8Law, primitive_Refines, decimal_Refines, uint_Refines, binary_Refines,
}
use pg_analytics.Datafusion.Cell.Refined.Branches.{cell_Refines}

module _ (l : Libraries) (k : LakeLibraries) (null_law : NullLaw l k) (utf8_law : Utf8Law l k) where
  open l use {
    f16_to_f32, f16_to_f64, f32_as_f64, f64_as_f32, f32_as_int, f64_as_int, int_as_f32, int_as_f64,
    Array, format_decimal, numeric_from_str, numeric_from_int, numeric_from_f32, numeric_from_f64,
    int_from_numeric, f32_from_numeric, f64_from_numeric,
  }

  pub lake_float4-Refines :
      (t : DataType) (array : Array) (index oid : ℕ) (name : Text)
      → Refines l k (lake_float4 l k t array index oid) (get_float4 l t array index oid name)
  unfolding lake_float4 get_float4 lake_mismatch
  lake_float4-Refines (int i8) array index oid name =
      cell_Refines l k null_law utf8_law (λ v. ok (f32_cell (int_as_f32 v))) _ _
        (primitive_Refines l k (int_array i8) array index)
  lake_float4-Refines (int i16) array index oid name =
      cell_Refines l k null_law utf8_law (λ v. ok (f32_cell (int_as_f32 v))) _ _
        (primitive_Refines l k (int_array i16) array index)
  lake_float4-Refines (int i32) array index oid name =
      cell_Refines l k null_law utf8_law (λ v. ok (f32_cell (int_as_f32 v))) _ _
        (primitive_Refines l k (int_array i32) array index)
  lake_float4-Refines (int i64) array index oid name =
      cell_Refines l k null_law utf8_law (λ v. ok (f32_cell (int_as_f32 v))) _ _
        (primitive_Refines l k (int_array i64) array index)
  lake_float4-Refines (int u8) array index oid name =
      cell_Refines l k null_law utf8_law (λ v. ok (f32_cell (int_as_f32 v))) _ _
        (uint_Refines l k null_law u8 array index)
  lake_float4-Refines (int u16) array index oid name =
      cell_Refines l k null_law utf8_law (λ v. ok (f32_cell (int_as_f32 v))) _ _
        (uint_Refines l k null_law u16 array index)
  lake_float4-Refines (int u32) array index oid name =
      cell_Refines l k null_law utf8_law (λ v. ok (f32_cell (int_as_f32 v))) _ _
        (uint_Refines l k null_law u32 array index)
  lake_float4-Refines (int u64) array index oid name =
      cell_Refines l k null_law utf8_law (λ v. ok (f32_cell (int_as_f32 v))) _ _
        (uint_Refines l k null_law u64 array index)
  lake_float4-Refines (float f16) array index oid name =
      cell_Refines l k null_law utf8_law (λ v. ok (f32_cell (f16_to_f32 v))) _ _
        (primitive_Refines l k (float_array f16) array index)
  lake_float4-Refines (float f32) array index oid name =
      cell_Refines l k null_law utf8_law (λ v. ok (f32_cell v)) _ _
        (primitive_Refines l k (float_array f32) array index)
  lake_float4-Refines (float f64) array index oid name =
      cell_Refines l k null_law utf8_law (λ v. ok (f32_cell (f64_as_f32 v))) _ _
        (primitive_Refines l k (float_array f64) array index)
  lake_float4-Refines (decimal128 p s) array index oid name =
      cell_Refines l k null_law utf8_law (λ v. ok (f32_cell v)) _ _
        (decimal_Refines l k (f32_from_numeric) array index p s)
  lake_float4-Refines t array index oid name = λ c h. ground (arith, h)

  pub lake_float8-Refines :
      (t : DataType) (array : Array) (index oid : ℕ) (name : Text)
      → Refines l k (lake_float8 l k t array index oid) (get_float8 l t array index oid name)
  unfolding lake_float8 get_float8 lake_mismatch
  lake_float8-Refines (int i8) array index oid name =
      cell_Refines l k null_law utf8_law (λ v. ok (f64_cell (int_as_f64 v))) _ _
        (primitive_Refines l k (int_array i8) array index)
  lake_float8-Refines (int i16) array index oid name =
      cell_Refines l k null_law utf8_law (λ v. ok (f64_cell (int_as_f64 v))) _ _
        (primitive_Refines l k (int_array i16) array index)
  lake_float8-Refines (int i32) array index oid name =
      cell_Refines l k null_law utf8_law (λ v. ok (f64_cell (int_as_f64 v))) _ _
        (primitive_Refines l k (int_array i32) array index)
  lake_float8-Refines (int i64) array index oid name =
      cell_Refines l k null_law utf8_law (λ v. ok (f64_cell (int_as_f64 v))) _ _
        (primitive_Refines l k (int_array i64) array index)
  lake_float8-Refines (int u8) array index oid name =
      cell_Refines l k null_law utf8_law (λ v. ok (f64_cell (int_as_f64 v))) _ _
        (uint_Refines l k null_law u8 array index)
  lake_float8-Refines (int u16) array index oid name =
      cell_Refines l k null_law utf8_law (λ v. ok (f64_cell (int_as_f64 v))) _ _
        (uint_Refines l k null_law u16 array index)
  lake_float8-Refines (int u32) array index oid name =
      cell_Refines l k null_law utf8_law (λ v. ok (f64_cell (int_as_f64 v))) _ _
        (uint_Refines l k null_law u32 array index)
  lake_float8-Refines (int u64) array index oid name =
      cell_Refines l k null_law utf8_law (λ v. ok (f64_cell (int_as_f64 v))) _ _
        (uint_Refines l k null_law u64 array index)
  lake_float8-Refines (float f16) array index oid name =
      cell_Refines l k null_law utf8_law (λ v. ok (f64_cell (f16_to_f64 v))) _ _
        (primitive_Refines l k (float_array f16) array index)
  lake_float8-Refines (float f32) array index oid name =
      cell_Refines l k null_law utf8_law (λ v. ok (f64_cell (f32_as_f64 v))) _ _
        (primitive_Refines l k (float_array f32) array index)
  lake_float8-Refines (float f64) array index oid name =
      cell_Refines l k null_law utf8_law (λ v. ok (f64_cell v)) _ _
        (primitive_Refines l k (float_array f64) array index)
  lake_float8-Refines (decimal128 p s) array index oid name =
      cell_Refines l k null_law utf8_law (λ v. ok (f64_cell v)) _ _
        (decimal_Refines l k (f64_from_numeric) array index p s)
  lake_float8-Refines t array index oid name = λ c h. ground (arith, h)

  pub lake_numeric-Refines :
      (t : DataType) (array : Array) (index oid : ℕ) (name : Text)
      → Refines l k (lake_numeric l k t array index oid) (get_numeric l t array index oid name)
  unfolding lake_numeric get_numeric lake_mismatch
  lake_numeric-Refines (int i8) array index oid name =
      cell_Refines l k null_law utf8_law (λ v. ok (numeric_cell (numeric_from_int v))) _ _
        (primitive_Refines l k (int_array i8) array index)
  lake_numeric-Refines (int i16) array index oid name =
      cell_Refines l k null_law utf8_law (λ v. ok (numeric_cell (numeric_from_int v))) _ _
        (primitive_Refines l k (int_array i16) array index)
  lake_numeric-Refines (int i32) array index oid name =
      cell_Refines l k null_law utf8_law (λ v. ok (numeric_cell (numeric_from_int v))) _ _
        (primitive_Refines l k (int_array i32) array index)
  lake_numeric-Refines (int i64) array index oid name =
      cell_Refines l k null_law utf8_law (λ v. ok (numeric_cell (numeric_from_int v))) _ _
        (primitive_Refines l k (int_array i64) array index)
  lake_numeric-Refines (int u8) array index oid name =
      cell_Refines l k null_law utf8_law (λ v. ok (numeric_cell (numeric_from_int v))) _ _
        (uint_Refines l k null_law u8 array index)
  lake_numeric-Refines (int u16) array index oid name =
      cell_Refines l k null_law utf8_law (λ v. ok (numeric_cell (numeric_from_int v))) _ _
        (uint_Refines l k null_law u16 array index)
  lake_numeric-Refines (int u32) array index oid name =
      cell_Refines l k null_law utf8_law (λ v. ok (numeric_cell (numeric_from_int v))) _ _
        (uint_Refines l k null_law u32 array index)
  lake_numeric-Refines (int u64) array index oid name =
      cell_Refines l k null_law utf8_law (λ v. ok (numeric_cell (numeric_from_int v))) _ _
        (uint_Refines l k null_law u64 array index)
  lake_numeric-Refines (float f16) array index oid name =
      cell_Refines l k null_law utf8_law
        (λ v. (numeric_from_f32 (f16_to_f32 v)) >>= λ n. ok (numeric_cell n)) _ _
        (primitive_Refines l k (float_array f16) array index)
  lake_numeric-Refines (float f32) array index oid name =
      cell_Refines l k null_law utf8_law (λ v. (numeric_from_f32 v) >>= λ n. ok (numeric_cell n)) _
        _ (primitive_Refines l k (float_array f32) array index)
  lake_numeric-Refines (float f64) array index oid name =
      cell_Refines l k null_law utf8_law (λ v. (numeric_from_f64 v) >>= λ n. ok (numeric_cell n)) _
        _ (primitive_Refines l k (float_array f64) array index)
  lake_numeric-Refines (decimal128 p s) array index oid name =
      cell_Refines l k null_law utf8_law
        (λ v. (numeric_from_str (format_decimal v p s)) >>= λ n. ok (numeric_cell n)) _ _
        (primitive_Refines l k (decimal128_array) array index)
  lake_numeric-Refines t array index oid name = λ c h. ground (arith, h)

  pub lake_text-Refines :
      (t : DataType) (array : Array) (index oid : ℕ) (name : Text)
      → Refines l k (lake_text l k t array index oid) (get_text l t array index oid name)
  unfolding lake_text get_text lake_mismatch
  lake_text-Refines utf8 array index oid name =
      cell_Refines l k null_law utf8_law (λ v. ok (string_cell v)) _ _
        (primitive_Refines l k (string_array) array index)
  lake_text-Refines large_utf8 array index oid name =
      cell_Refines l k null_law utf8_law (λ v. ok (string_cell v)) _ _
        (primitive_Refines l k (large_string_array) array index)
  lake_text-Refines binary array index oid name =
      cell_Refines l k null_law utf8_law (λ v. ok (string_cell v)) _ _
        (binary_Refines l k utf8_law binary_array (λ b. b) array index)
  lake_text-Refines large_binary array index oid name =
      cell_Refines l k null_law utf8_law (λ v. ok (string_cell v)) _ _
        (binary_Refines l k utf8_law large_binary_array (λ b. b) array index)
  lake_text-Refines t array index oid name = λ c h. ground (arith, h)

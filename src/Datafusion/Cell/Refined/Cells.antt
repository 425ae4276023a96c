-- ===== src/Datafusion/Cell/Refined/Cells.antt =====
-- The two `get_cell`: what the earlier one of src/datafusion/src/schema/cell.rs reads, that of
-- src/schema/cell.rs reads, too.
use pg_analytics.Prelude.{ℕ, arith, ◌≡◌, ◌≢◌, refl, Option}
use pg_analytics.Text.{Text}
use pg_analytics.Result.{ok}
use pg_analytics.Schema.Cell.Types.{
  PgType, boolean_array, bool_oid, bytea_oid, int2_oid, int4_oid, int8_oid, float4_oid, float8_oid,
  numeric_oid, text_oid, varchar_oid, bpchar_oid, date_oid, time_oid, timestamp_oid,
  timestamptz_oid,
}
use pg_analytics.Schema.Cell.Libraries.{Libraries}
use pg_analytics.Schema.Cell.Cells.{Cell, bool_cell}
use pg_analytics.Schema.Cell.Get.{get_cell, get_cell_of}
use pg_analytics.Datafusion.Cell.Values.{LakeLibraries, lake_mismatch}
use pg_analytics.Datafusion.Cell.Get.{lake_get_cell, lake_cell_of}
use pg_analytics.Datafusion.Cell.Refined.{Refines, NullLaw, Utf8Law, primitive_Refines}
use pg_analytics.Datafusion.Cell.Refined.Branches.{
  cell_Refines, lake_int2-Refines, lake_int4-Refines, lake_int8-Refines,
}
use pg_analytics.Datafusion.Cell.Refined.Floats.{
  lake_float4-Refines, lake_float8-Refines, lake_numeric-Refines, lake_text-Refines,
}
use pg_analytics.Datafusion.Cell.Refined.Temporal.{
  lake_date-Refines, lake_time-Refines, lake_timestamp-Refines, lake_timestamptz-Refines,
}

module _ (l : Libraries) (k : LakeLibraries) (null_law : NullLaw l k) (utf8_law : Utf8Law l k) where
  open l use {Array, data_type, type_of_oid}

  lake_cell_of-Refines :
      (t : PgType) (array : Array) (index oid : ℕ) (name : Text)
      → t ≢ bytea_oid
      → Refines l k (lake_cell_of l k t array index oid) (get_cell_of l t array index oid name)
  unfolding lake_cell_of get_cell_of lake_mismatch
  lake_cell_of-Refines bool_oid array index oid name other =
      cell_Refines l k null_law utf8_law (λ v. ok (bool_cell v)) _ _
        (primitive_Refines l k boolean_array array index)
  lake_cell_of-Refines int2_oid array index oid name other =
      lake_int2-Refines l k null_law utf8_law (data_type array) array index oid name
  lake_cell_of-Refines int4_oid array index oid name other =
      lake_int4-Refines l k null_law utf8_law (data_type array) array index oid name
  lake_cell_of-Refines int8_oid array index oid name other =
      lake_int8-Refines l k null_law utf8_law (data_type array) array index oid name
  lake_cell_of-Refines float4_oid array index oid name other =
      lake_float4-Refines l k null_law utf8_law (data_type array) array index oid name
  lake_cell_of-Refines float8_oid array index oid name other =
      lake_float8-Refines l k null_law utf8_law (data_type array) array index oid name
  lake_cell_of-Refines numeric_oid array index oid name other =
      lake_numeric-Refines l k null_law utf8_law (data_type array) array index oid name
  lake_cell_of-Refines text_oid array index oid name other =
      lake_text-Refines l k null_law utf8_law (data_type array) array index oid name
  lake_cell_of-Refines varchar_oid array index oid name other =
      lake_text-Refines l k null_law utf8_law (data_type array) array index oid name
  lake_cell_of-Refines bpchar_oid array index oid name other =
      lake_text-Refines l k null_law utf8_law (data_type array) array index oid name
  lake_cell_of-Refines date_oid array index oid name other =
      lake_date-Refines l k null_law utf8_law (data_type array) array index oid name
  lake_cell_of-Refines time_oid array index oid name other =
      lake_time-Refines l k null_law utf8_law (data_type array) array index oid name
  lake_cell_of-Refines timestamp_oid array index oid name other =
      lake_timestamp-Refines l k null_law utf8_law (data_type array) array index oid name
  lake_cell_of-Refines timestamptz_oid array index oid name other =
      lake_timestamptz-Refines l k null_law utf8_law (data_type array) array index oid name
  lake_cell_of-Refines bytea_oid array index oid name other = absurd (other refl)
  lake_cell_of-Refines t array index oid name other = λ c h. ground (arith, h)

  -- Where an array without a null buffer has no nulls, and UTF-8 is its text without the check,
  -- too: for every column but those of BYTEA and for each data type of the array, what the earlier
  -- get_cell of src/datafusion reads, a cell or none, get_cell of src/schema/cell.rs reads, too.
  pub lake_get_cell-get_cell :
      (array : Array) (index oid : ℕ) (name : Text) (c : Option (Cell l))
      → type_of_oid oid ≢ bytea_oid
      → lake_get_cell l k array index oid ≡ ok c
      → get_cell l array index oid name ≡ ok c
  unfolding lake_get_cell get_cell
  lake_get_cell-get_cell array index oid name c other read =
      lake_cell_of-Refines (type_of_oid oid) array index oid name other c read

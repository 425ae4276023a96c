-- ===== src/Datafusion/Cell/Get.antt =====
-- src/datafusion/src/schema/cell.rs: `GetCell::get_cell`; the type's modifier is not used.
use pg_analytics.Prelude.{ℕ, Option}
use pg_analytics.Result.{Result}
use pg_analytics.Schema.Cell.Types.{
  PgType, boolean_array, bool_oid, bytea_oid, int2_oid, int4_oid, int8_oid, float4_oid, float8_oid,
  numeric_oid, text_oid, varchar_oid, bpchar_oid, date_oid, time_oid, timestamp_oid,
  timestamptz_oid,
}
use pg_analytics.Schema.Cell.Libraries.{Libraries}
use pg_analytics.Schema.Cell.Cells.{Cell, to_cell, bool_cell}
use pg_analytics.Datafusion.Cell.Values.{LakeLibraries, lake_primitive_value, lake_mismatch}
use pg_analytics.Datafusion.Cell.Numbers.{lake_int2, lake_int4, lake_int8}
use pg_analytics.Datafusion.Cell.Floats.{lake_float4, lake_float8, lake_numeric, lake_text}
use pg_analytics.Datafusion.Cell.Temporal.{lake_date, lake_time, lake_timestamp, lake_timestamptz}

module _ (l : Libraries) (k : LakeLibraries) where
  open l use {Array, data_type, type_of_oid}

  -- The match on the oid.
  unfoldable pub lake_cell_of : PgType → Array → ℕ → ℕ → Result (Option (Cell l))
  lake_cell_of bool_oid array index oid =
      to_cell l bool_cell (lake_primitive_value l k boolean_array array index)
  lake_cell_of int2_oid array index oid = lake_int2 l k (data_type array) array index oid
  lake_cell_of int4_oid array index oid = lake_int4 l k (data_type array) array index oid
  lake_cell_of int8_oid array index oid = lake_int8 l k (data_type array) array index oid
  lake_cell_of float4_oid array index oid = lake_float4 l k (data_type array) array index oid
  lake_cell_of float8_oid array index oid = lake_float8 l k (data_type array) array index oid
  lake_cell_of numeric_oid array index oid = lake_numeric l k (data_type array) array index oid
  lake_cell_of text_oid array index oid = lake_text l k (data_type array) array index oid
  lake_cell_of varchar_oid array index oid = lake_text l k (data_type array) array index oid
  lake_cell_of bpchar_oid array index oid = lake_text l k (data_type array) array index oid
  lake_cell_of bytea_oid array index oid = lake_text l k (data_type array) array index oid
  lake_cell_of date_oid array index oid = lake_date l k (data_type array) array index oid
  lake_cell_of time_oid array index oid = lake_time l k (data_type array) array index oid
  lake_cell_of timestamp_oid array index oid = lake_timestamp l k (data_type array) array index oid
  lake_cell_of timestamptz_oid array index oid =
      lake_timestamptz l k (data_type array) array index oid
  lake_cell_of t array index oid = lake_mismatch l k (data_type array) oid

  -- `GetCell::get_cell`
  unfoldable pub lake_get_cell : Array → ℕ → ℕ → Result (Option (Cell l))
  unfolding lake_cell_of
  lake_get_cell array index oid = lake_cell_of (type_of_oid oid) array index oid

-- ===== src/Schema/Cell/Listed/Read.antt =====
-- `get_cell` on a null.
use pg_analytics.Prelude.{ℕ, arith, true, none, ◌≡◌}
use pg_analytics.Text.{Text}
use pg_analytics.Result.{ok}
use pg_analytics.Schema.Cell.Types.{
  PgType, bytea_oid, int2_oid, int4_oid, int8_oid, float4_oid, float8_oid, numeric_oid, text_oid,
  varchar_oid, bpchar_oid, name_oid, date_oid, interval_oid, json_oid, jsonb_oid, time_oid,
  timestamp_oid, timestamptz_oid, void_oid,
}
use pg_analytics.Schema.Cell.Libraries.{Libraries}
use pg_analytics.Schema.Cell.Get.{get_cell, get_cell_of}
use pg_analytics.Schema.Cell.Listed.{readable}
use pg_analytics.Schema.Cell.Listed.Nulls.{null_at}
use pg_analytics.Schema.Cell.Listed.Branches.{
  get_bytea-NullIsNone, get_int2-NullIsNone, get_int4-NullIsNone, get_int8-NullIsNone,
  get_float4-NullIsNone, get_float8-NullIsNone, get_numeric-NullIsNone, get_text-NullIsNone,
  get_date-NullIsNone, get_interval-NullIsNone, get_json-NullIsNone, get_jsonb-NullIsNone,
  get_time-NullIsNone, get_timestamp-NullIsNone, get_timestamptz-NullIsNone, get_void-NullIsNone,
}

module _ (l : Libraries) where
  open l use {Array, data_type, type_of_oid}

  get_cell_of-null :
      (p : PgType) (array : Array) (index oid : ℕ) (name : Text)
      → readable p (data_type array) ≡ true
      → null_at l (data_type array) array index ≡ true
      → get_cell_of l p array index oid name ≡ ok none
  unfolding get_cell_of
  get_cell_of-null bytea_oid array index oid name read is_null =
      get_bytea-NullIsNone l (data_type array) array index oid name read is_null
  get_cell_of-null int2_oid array index oid name read is_null =
      get_int2-NullIsNone l (data_type array) array index oid name read is_null
  get_cell_of-null int4_oid array index oid name read is_null =
      get_int4-NullIsNone l (data_type array) array index oid name read is_null
  get_cell_of-null int8_oid array index oid name read is_null =
      get_int8-NullIsNone l (data_type array) array index oid name read is_null
  get_cell_of-null float4_oid array index oid name read is_null =
      get_float4-NullIsNone l (data_type array) array index oid name read is_null
  get_cell_of-null float8_oid array index oid name read is_null =
      get_float8-NullIsNone l (data_type array) array index oid name read is_null
  get_cell_of-null numeric_oid array index oid name read is_null =
      get_numeric-NullIsNone l (data_type array) array index oid name read is_null
  get_cell_of-null text_oid array index oid name read is_null =
      get_text-NullIsNone l (data_type array) array index oid name read is_null
  get_cell_of-null varchar_oid array index oid name read is_null =
      get_text-NullIsNone l (data_type array) array index oid name read is_null
  get_cell_of-null bpchar_oid array index oid name read is_null =
      get_text-NullIsNone l (data_type array) array index oid name read is_null
  get_cell_of-null name_oid array index oid name read is_null =
      get_text-NullIsNone l (data_type array) array index oid name read is_null
  get_cell_of-null date_oid array index oid name read is_null =
      get_date-NullIsNone l (data_type array) array index oid name read is_null
  get_cell_of-null interval_oid array index oid name read is_null =
      get_interval-NullIsNone l (data_type array) array index oid name read is_null
  get_cell_of-null json_oid array index oid name read is_null =
      get_json-NullIsNone l (data_type array) array index oid name read is_null
  get_cell_of-null jsonb_oid array index oid name read is_null =
      get_jsonb-NullIsNone l (data_type array) array index oid name read is_null
  get_cell_of-null time_oid array index oid name read is_null =
      get_time-NullIsNone l (data_type array) array index oid name read is_null
  get_cell_of-null timestamp_oid array index oid name read is_null =
      get_timestamp-NullIsNone l (data_type array) array index oid name read is_null
  get_cell_of-null timestamptz_oid array index oid name read is_null =
      get_timestamptz-NullIsNone l (data_type array) array index oid name read is_null
  get_cell_of-null void_oid array index oid name read is_null =
      get_void-NullIsNone l (data_type array) array index oid name read is_null
  get_cell_of-null p array index oid name read is_null = ground arith

  -- Where the table lists the type of the array for the column's type, other than 64-bit integers for
  -- an `INT2` column, a null of the array is read as no cell, without an error.
  pub get_cell-null :
      (array : Array) (index oid : ℕ) (name : Text)
      → readable (type_of_oid oid) (data_type array) ≡ true
      → null_at l (data_type array) array index ≡ true
      → get_cell l array index oid name ≡ ok none
  unfolding get_cell
  get_cell-null array index oid name read is_null =
      get_cell_of-null (type_of_oid oid) array index oid name read is_null

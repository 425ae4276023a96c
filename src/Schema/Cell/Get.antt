-- ===== src/Schema/Cell/Get.antt =====
-- src/schema/cell.rs: `GetCell::get_cell`, the match on the type of Postgres.
use pg_analytics.Prelude.{ℕ, Option, none}
use pg_analytics.Text.{Text}
use pg_analytics.Result.{Result, ok}
use pg_analytics.Schema.Cell.Types.{
  i16, i32, i64, f32, f64, DataType, null, boolean_array, int_array, float_array, PgType, bool_oid,
  bytea_oid, int2_oid, int4_oid, int8_oid, float4_oid, float8_oid, numeric_oid, text_oid,
  varchar_oid, bpchar_oid, name_oid, date_oid, interval_oid, json_oid, jsonb_oid, time_oid,
  timestamp_oid, timestamptz_oid, void_oid, uuid_oid, bool_array_oid, text_array_oid,
  varchar_array_oid, bpchar_array_oid, int2_array_oid, int4_array_oid, int8_array_oid,
  float4_array_oid, float8_array_oid,
}
use pg_analytics.Schema.Cell.Libraries.{Libraries}
use pg_analytics.Schema.Cell.Values.{
  get_primitive_value, get_primitive_list_value, get_string_list_value, get_uuid_value,
}
use pg_analytics.Schema.Cell.Cells.{
  Cell, bool_cell, uuid_cell, bool_array_cell, string_array_cell, i16_array_cell, i32_array_cell,
  i64_array_cell, f32_array_cell, f64_array_cell, to_cell, mismatch,
}
use pg_analytics.Schema.Cell.Numbers.{get_int2, get_int4, get_int8}
use pg_analytics.Schema.Cell.Floats.{get_float4, get_float8, get_numeric}
use pg_analytics.Schema.Cell.Documents.{get_bytea, get_text, get_json, get_jsonb}
use pg_analytics.Schema.Cell.Temporal.{
  get_date, get_interval, get_time, get_timestamp, get_timestamptz,
}

module _ (l : Libraries) where
  open l use {Array, data_type, type_of_oid}

  -- The branch `VOIDOID`.
  unfoldable pub get_void : DataType → Array → ℕ → ℕ → Text → Result (Option (Cell l))
  get_void null array index oid name = ok none
  get_void t array index oid name = mismatch l name t oid

  -- The branches for the arrays of Postgres.
  unfoldable pub get_array : PgType → Array → ℕ → ℕ → Text → Result (Option (Cell l))
  get_array bool_array_oid array index oid name =
      to_cell l bool_array_cell (get_primitive_list_value l boolean_array array index)
  get_array text_array_oid array index oid name =
      to_cell l string_array_cell (get_string_list_value l array index)
  get_array varchar_array_oid array index oid name =
      to_cell l string_array_cell (get_string_list_value l array index)
  get_array bpchar_array_oid array index oid name =
      to_cell l string_array_cell (get_string_list_value l array index)
  get_array int2_array_oid array index oid name =
      to_cell l i16_array_cell (get_primitive_list_value l (int_array i16) array index)
  get_array int4_array_oid array index oid name =
      to_cell l i32_array_cell (get_primitive_list_value l (int_array i32) array index)
  get_array int8_array_oid array index oid name =
      to_cell l i64_array_cell (get_primitive_list_value l (int_array i64) array index)
  get_array float4_array_oid array index oid name =
      to_cell l f32_array_cell (get_primitive_list_value l (float_array f32) array index)
  get_array float8_array_oid array index oid name =
      to_cell l f64_array_cell (get_primitive_list_value l (float_array f64) array index)
  get_array t array index oid name = mismatch l name (data_type array) oid

  -- The match on the oid.
  unfoldable pub get_cell_of : PgType → Array → ℕ → ℕ → Text → Result (Option (Cell l))
  get_cell_of bool_oid array index oid name =
      to_cell l bool_cell (get_primitive_value l boolean_array array index)
  get_cell_of bytea_oid array index oid name = get_bytea l (data_type array) array index oid name
  get_cell_of int2_oid array index oid name = get_int2 l (data_type array) array index oid name
  get_cell_of int4_oid array index oid name = get_int4 l (data_type array) array index oid name
  get_cell_of int8_oid array index oid name = get_int8 l (data_type array) array index oid name
  get_cell_of float4_oid array index oid name = get_float4 l (data_type array) array index oid name
  get_cell_of float8_oid array index oid name = get_float8 l (data_type array) array index oid name
  get_cell_of numeric_oid array index oid name =
      get_numeric l (data_type array) array index oid name
  get_cell_of text_oid array index oid name = get_text l (data_type array) array index oid name
  get_cell_of varchar_oid array index oid name = get_text l (data_type array) array index oid name
  get_cell_of bpchar_oid array index oid name = get_text l (data_type array) array index oid name
  get_cell_of name_oid array index oid name = get_text l (data_type array) array index oid name
  get_cell_of date_oid array index oid name = get_date l (data_type array) array index oid name
  get_cell_of interval_oid array index oid name =
      get_interval l (data_type array) array index oid name
  get_cell_of json_oid array index oid name = get_json l (data_type array) array index oid name
  get_cell_of jsonb_oid array index oid name = get_jsonb l (data_type array) array index oid name
  get_cell_of time_oid array index oid name = get_time l (data_type array) array index oid name
  get_cell_of timestamp_oid array index oid name =
      get_timestamp l (data_type array) array index oid name
  get_cell_of timestamptz_oid array index oid name =
      get_timestamptz l (data_type array) array index oid name
  get_cell_of void_oid array index oid name = get_void (data_type array) array index oid name
  get_cell_of uuid_oid array index oid name = to_cell l uuid_cell (get_uuid_value l array index)
  get_cell_of t array index oid name = get_array t array index oid name

  -- `GetCell::get_cell`
  unfoldable pub get_cell : Array → ℕ → ℕ → Text → Result (Option (Cell l))
  get_cell array index oid name = get_cell_of (type_of_oid oid) array index oid name

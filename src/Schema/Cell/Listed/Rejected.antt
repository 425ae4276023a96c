-- ===== src/Schema/Cell/Listed/Rejected.antt =====
-- An array whose type is not listed for its column is refused with `DataTypeMismatch`.
use pg_analytics.Prelude.{ℕ, arith, Bool, true, false, ◌||◌, Option, ◌≡◌}
use pg_analytics.Text.{Text}
use pg_analytics.Result.{Result, err}
use pg_analytics.Schema.Cell.Types.{
  DataType, PgType, bytea_oid, int2_oid, int4_oid, int8_oid, float4_oid, float8_oid, numeric_oid,
  text_oid, varchar_oid, bpchar_oid, name_oid, date_oid, interval_oid, json_oid, jsonb_oid,
  time_oid, timestamp_oid, timestamptz_oid, void_oid,
}
use pg_analytics.Schema.Cell.Libraries.{Libraries}
use pg_analytics.Schema.Cell.Cells.{Cell, mismatch, data_type_mismatch}
use pg_analytics.Schema.Cell.Numbers.{get_int2, get_int4, get_int8}
use pg_analytics.Schema.Cell.Floats.{get_float4, get_float8, get_numeric}
use pg_analytics.Schema.Cell.Documents.{get_bytea, get_text, get_json, get_jsonb}
use pg_analytics.Schema.Cell.Temporal.{
  get_date, get_interval, get_time, get_timestamp, get_timestamptz,
}
use pg_analytics.Schema.Cell.Get.{get_cell, get_cell_of, get_void}
use pg_analytics.Schema.Cell.Listed.{
  listed, by_data_type, is_number, is_string, is_binary, is_utf8, is_date, is_timestamp,
  is_interval, is_time, is_nested, is_null_type,
}

module _ (l : Libraries) where
  open l use {Array, data_type, type_of_oid}

  -- A branch that refuses the types that fail a test.
  abbrev RejectsUnless :
      (DataType → Bool) → (DataType → Array → ℕ → ℕ → Text → Result (Option (Cell l))) → Type 0
  RejectsUnless test branch =
      (t : DataType) (array : Array) (index oid : ℕ) (name : Text)
      → test t ≡ false
      → branch t array index oid name ≡ mismatch l name t oid

  get_bytea-RejectsUnless : RejectsUnless (λ t. is_binary t || is_utf8 t) (get_bytea l)
  unfolding get_bytea
  get_bytea-RejectsUnless t array index oid name unlisted = ground arith

  get_text-RejectsUnless : RejectsUnless (λ t. is_string t || is_binary t) (get_text l)
  unfolding get_text
  get_text-RejectsUnless t array index oid name unlisted = ground arith

  get_json-RejectsUnless : RejectsUnless (λ t. is_nested t || is_string t) (get_json l)
  unfolding get_json
  get_json-RejectsUnless t array index oid name unlisted = ground arith

  get_jsonb-RejectsUnless : RejectsUnless (λ t. is_nested t || is_string t) (get_jsonb l)
  unfolding get_jsonb
  get_jsonb-RejectsUnless t array index oid name unlisted = ground arith

  get_int2-RejectsUnless : RejectsUnless is_number (get_int2 l)
  unfolding get_int2
  get_int2-RejectsUnless t array index oid name unlisted = ground arith

  get_int4-RejectsUnless : RejectsUnless is_number (get_int4 l)
  unfolding get_int4
  get_int4-RejectsUnless t array index oid name unlisted = ground arith

  get_int8-RejectsUnless : RejectsUnless is_number (get_int8 l)
  unfolding get_int8
  get_int8-RejectsUnless t array index oid name unlisted = ground arith

  get_float4-RejectsUnless : RejectsUnless is_number (get_float4 l)
  unfolding get_float4
  get_float4-RejectsUnless t array index oid name unlisted = ground arith

  get_float8-RejectsUnless : RejectsUnless is_number (get_float8 l)
  unfolding get_float8
  get_float8-RejectsUnless t array index oid name unlisted = ground arith

  get_numeric-RejectsUnless : RejectsUnless is_number (get_numeric l)
  unfolding get_numeric
  get_numeric-RejectsUnless t array index oid name unlisted = ground arith

  get_date-RejectsUnless : RejectsUnless is_date (get_date l)
  unfolding get_date
  get_date-RejectsUnless t array index oid name unlisted = ground arith

  get_interval-RejectsUnless : RejectsUnless is_interval (get_interval l)
  unfolding get_interval
  get_interval-RejectsUnless t array index oid name unlisted = ground arith

  get_time-RejectsUnless : RejectsUnless is_time (get_time l)
  unfolding get_time
  get_time-RejectsUnless t array index oid name unlisted = ground arith

  get_timestamp-RejectsUnless : RejectsUnless (λ t. is_timestamp t || is_date t) (get_timestamp l)
  unfolding get_timestamp
  get_timestamp-RejectsUnless t array index oid name unlisted = ground arith

  get_timestamptz-RejectsUnless :
      RejectsUnless (λ t. is_timestamp t || is_date t) (get_timestamptz l)
  unfolding get_timestamptz
  get_timestamptz-RejectsUnless t array index oid name unlisted = ground arith

  get_void-RejectsUnless : RejectsUnless is_null_type (get_void l)
  unfolding get_void
  get_void-RejectsUnless t array index oid name unlisted = ground arith

  get_cell_of-rejected :
      (p : PgType) (array : Array) (index oid : ℕ) (name : Text)
      → by_data_type p ≡ true
      → listed p (data_type array) ≡ false
      → get_cell_of l p array index oid name ≡ mismatch l name (data_type array) oid
  unfolding get_cell_of
  get_cell_of-rejected bytea_oid array index oid name by unlisted =
      get_bytea-RejectsUnless (data_type array) array index oid name unlisted
  get_cell_of-rejected int2_oid array index oid name by unlisted =
      get_int2-RejectsUnless (data_type array) array index oid name unlisted
  get_cell_of-rejected int4_oid array index oid name by unlisted =
      get_int4-RejectsUnless (data_type array) array index oid name unlisted
  get_cell_of-rejected int8_oid array index oid name by unlisted =
      get_int8-RejectsUnless (data_type array) array index oid name unlisted
  get_cell_of-rejected float4_oid array index oid name by unlisted =
      get_float4-RejectsUnless (data_type array) array index oid name unlisted
  get_cell_of-rejected float8_oid array index oid name by unlisted =
      get_float8-RejectsUnless (data_type array) array index oid name unlisted
  get_cell_of-rejected numeric_oid array index oid name by unlisted =
      get_numeric-RejectsUnless (data_type array) array index oid name unlisted
  get_cell_of-rejected text_oid array index oid name by unlisted =
      get_text-RejectsUnless (data_type array) array index oid name unlisted
  get_cell_of-rejected varchar_oid array index oid name by unlisted =
      get_text-RejectsUnless (data_type array) array index oid name unlisted
  get_cell_of-rejected bpchar_oid array index oid name by unlisted =
      get_text-RejectsUnless (data_type array) array index oid name unlisted
  get_cell_of-rejected name_oid array index oid name by unlisted =
      get_text-RejectsUnless (data_type array) array index oid name unlisted
  get_cell_of-rejected date_oid array index oid name by unlisted =
      get_date-RejectsUnless (data_type array) array index oid name unlisted
  get_cell_of-rejected interval_oid array index oid name by unlisted =
      get_interval-RejectsUnless (data_type array) array index oid name unlisted
  get_cell_of-rejected json_oid array index oid name by unlisted =
      get_json-RejectsUnless (data_type array) array index oid name unlisted
  get_cell_of-rejected jsonb_oid array index oid name by unlisted =
      get_jsonb-RejectsUnless (data_type array) array index oid name unlisted
  get_cell_of-rejected time_oid array index oid name by unlisted =
      get_time-RejectsUnless (data_type array) array index oid name unlisted
  get_cell_of-rejected timestamp_oid array index oid name by unlisted =
      get_timestamp-RejectsUnless (data_type array) array index oid name unlisted
  get_cell_of-rejected timestamptz_oid array index oid name by unlisted =
      get_timestamptz-RejectsUnless (data_type array) array index oid name unlisted
  get_cell_of-rejected void_oid array index oid name by unlisted =
      get_void-RejectsUnless (data_type array) array index oid name unlisted
  get_cell_of-rejected p array index oid name by unlisted = ground arith

  -- For a column whose type is matched together with the type of the array (all but booleans, uuids
  -- and arrays), an array of a type that the table does not list gives the error
  -- `DataTypeMismatch`, which names the column, the type of the array and the oid, whatever the
  -- array holds.
  pub get_cell-rejected :
      (array : Array) (index oid : ℕ) (name : Text)
      → by_data_type (type_of_oid oid) ≡ true
      → listed (type_of_oid oid) (data_type array) ≡ false
      → get_cell l array index oid name ≡ err (data_type_mismatch l name (data_type array) oid)
  unfolding get_cell
  get_cell-rejected array index oid name by unlisted =
      get_cell_of-rejected (type_of_oid oid) array index oid name by unlisted

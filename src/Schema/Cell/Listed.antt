-- ===== src/Schema/Cell/Listed.antt =====
-- src/schema/cell.rs: which Arrow types `get_cell` lists for which type of Postgres, as a table.
pub mod Rejected
pub mod Nulls
mod Branches
pub mod Read
use pg_analytics.Prelude.{Bool, true, false, not, ◌&&◌, ◌||◌}
use pg_analytics.Schema.Cell.Types.{
  DataType, null, int, i64, float, decimal128, utf8, large_utf8, binary, large_binary, date32,
  date64, time32, time64, timestamp, interval, list, struct, second, millisecond, microsecond,
  nanosecond, PgType, bytea_oid, int2_oid, int4_oid, int8_oid, float4_oid, float8_oid, numeric_oid,
  text_oid, varchar_oid, bpchar_oid, name_oid, date_oid, interval_oid, json_oid, jsonb_oid,
  time_oid, timestamp_oid, timestamptz_oid, void_oid,
}

abbrev pub is_number : DataType → Bool
is_number (int k) = true
is_number (float k) = true
is_number (decimal128 p s) = true
is_number t = false

abbrev pub is_string : DataType → Bool
is_string utf8 = true
is_string large_utf8 = true
is_string t = false

abbrev pub is_binary : DataType → Bool
is_binary binary = true
is_binary large_binary = true
is_binary t = false

abbrev pub is_utf8 : DataType → Bool
is_utf8 utf8 = true
is_utf8 t = false

abbrev pub is_date : DataType → Bool
is_date date32 = true
is_date date64 = true
is_date t = false

abbrev pub is_timestamp : DataType → Bool
is_timestamp (timestamp unit tz) = true
is_timestamp t = false

abbrev pub is_interval : DataType → Bool
is_interval (interval unit) = true
is_interval t = false

-- The units that the two widths of times have.
abbrev pub is_time : DataType → Bool
is_time (time32 second) = true
is_time (time32 millisecond) = true
is_time (time64 microsecond) = true
is_time (time64 nanosecond) = true
is_time t = false

abbrev pub is_nested : DataType → Bool
is_nested (list t) = true
is_nested (struct fields) = true
is_nested t = false

abbrev pub is_null_type : DataType → Bool
is_null_type null = true
is_null_type t = false

-- The oids whose branch matches on the data type of the array.
abbrev pub by_data_type : PgType → Bool
by_data_type bytea_oid = true
by_data_type int2_oid = true
by_data_type int4_oid = true
by_data_type int8_oid = true
by_data_type float4_oid = true
by_data_type float8_oid = true
by_data_type numeric_oid = true
by_data_type text_oid = true
by_data_type varchar_oid = true
by_data_type bpchar_oid = true
by_data_type name_oid = true
by_data_type date_oid = true
by_data_type interval_oid = true
by_data_type json_oid = true
by_data_type jsonb_oid = true
by_data_type time_oid = true
by_data_type timestamp_oid = true
by_data_type timestamptz_oid = true
by_data_type void_oid = true
by_data_type t = false

-- The table.
abbrev pub listed : PgType → DataType → Bool
listed bytea_oid t = is_binary t || is_utf8 t
listed int2_oid t = is_number t
listed int4_oid t = is_number t
listed int8_oid t = is_number t
listed float4_oid t = is_number t
listed float8_oid t = is_number t
listed numeric_oid t = is_number t
listed text_oid t = is_string t || is_binary t
listed varchar_oid t = is_string t || is_binary t
listed bpchar_oid t = is_string t || is_binary t
listed name_oid t = is_string t || is_binary t
listed date_oid t = is_date t
listed interval_oid t = is_interval t
listed json_oid t = is_nested t || is_string t
listed jsonb_oid t = is_nested t || is_string t
listed time_oid t = is_time t
listed timestamp_oid t = is_timestamp t || is_date t
listed timestamptz_oid t = is_timestamp t || is_date t
listed void_oid t = is_null_type t
listed p t = false

-- The pairs of the table that are read by a helper for the array's own type: all but 64-bit integers
-- under `INT2OID`, which are read as 8-bit ones.
abbrev pub is_i64 : DataType → Bool
is_i64 (int i64) = true
is_i64 t = false

abbrev pub readable : PgType → DataType → Bool
readable int2_oid t = is_number t && not (is_i64 t)
readable p t = listed p t

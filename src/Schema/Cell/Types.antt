-- ===== src/Schema/Cell/Types.antt =====
-- The types of Arrow that src/schema/cell.rs tells apart, the array types that it downcasts to, and
-- the object ids of Postgres that it matches on.
use pg_analytics.Prelude.{ℕ, Bool, Option, some, none, List}
use pg_analytics.Text.{Text}
use pg_analytics.Schema.Integers.{ℤ}

-- `TimeUnit`
pub data TimeUnit : Type 0 where
  second : TimeUnit
  millisecond : TimeUnit
  microsecond : TimeUnit
  nanosecond : TimeUnit

-- `IntervalUnit`
pub data IntervalUnit : Type 0 where
  year_month : IntervalUnit
  day_time : IntervalUnit
  month_day_nano : IntervalUnit

-- The primitive integer types of Arrow.
pub data IntType : Type 0 where
  i8 : IntType
  i16 : IntType
  i32 : IntType
  i64 : IntType
  u8 : IntType
  u16 : IntType
  u32 : IntType
  u64 : IntType

pub data FloatType : Type 0 where
  f16 : FloatType
  f32 : FloatType
  f64 : FloatType

-- `DataType`; the fields of a struct, which no match looks at, are a parameter, and the types that
-- no match names are one constructor.
pub data DataType : Type 0 where
  null : DataType
  boolean : DataType
  int : IntType → DataType
  float : FloatType → DataType
  decimal128 : ℕ → ℤ → DataType
  utf8 : DataType
  large_utf8 : DataType
  binary : DataType
  large_binary : DataType
  date32 : DataType
  date64 : DataType
  time32 : TimeUnit → DataType
  time64 : TimeUnit → DataType
  timestamp : TimeUnit → Option Text → DataType
  interval : IntervalUnit → DataType
  list : DataType → DataType
  struct : ℕ → DataType
  other : ℕ → DataType

-- The array types that the code downcasts to, other than lists and structs.
pub data ArrayType : Type 0 where
  boolean_array : ArrayType
  int_array : IntType → ArrayType
  float_array : FloatType → ArrayType
  decimal128_array : ArrayType
  string_array : ArrayType
  large_string_array : ArrayType
  binary_array : ArrayType
  large_binary_array : ArrayType
  date32_array : ArrayType
  date64_array : ArrayType
  time32_array : TimeUnit → ArrayType
  time64_array : TimeUnit → ArrayType
  timestamp_array : TimeUnit → ArrayType
  interval_array : IntervalUnit → ArrayType

-- The array type of a data type: what `downcast_ref` of an array of that type succeeds with.
abbrev pub array_type : DataType → Option ArrayType
array_type null = none
array_type boolean = some boolean_array
array_type (int k) = some (int_array k)
array_type (float k) = some (float_array k)
array_type (decimal128 p s) = some decimal128_array
array_type utf8 = some string_array
array_type large_utf8 = some large_string_array
array_type binary = some binary_array
array_type large_binary = some large_binary_array
array_type date32 = some date32_array
array_type date64 = some date64_array
array_type (time32 unit) = some (time32_array unit)
array_type (time64 unit) = some (time64_array unit)
array_type (timestamp unit tz) = some (timestamp_array unit)
array_type (interval unit) = some (interval_array unit)
array_type (list t) = none
array_type (struct fields) = none
array_type (other t) = none

module _ (F16 F32 F64 : Type 0) where
  -- A value of a float array.
  abbrev pub FloatItem : FloatType → Type 0
  FloatItem f16 = F16
  FloatItem f32 = F32
  FloatItem f64 = F64

  -- A value of an interval array: months; days and milliseconds; months, days and nanoseconds.
  abbrev pub IntervalItem : IntervalUnit → Type 0
  IntervalItem year_month = ℤ
  IntervalItem day_time = ℤ × ℤ
  IntervalItem month_day_nano = ℤ × ℤ × ℤ

  -- `ArrayAccessor::Item`: what `value` of an array gives.
  abbrev pub Item : ArrayType → Type 0
  Item boolean_array = Bool
  Item (int_array k) = ℤ
  Item (float_array k) = FloatItem k
  Item decimal128_array = ℤ
  Item string_array = Text
  Item large_string_array = Text
  Item binary_array = List ℕ
  Item large_binary_array = List ℕ
  Item date32_array = ℤ
  Item date64_array = ℤ
  Item (time32_array unit) = ℤ
  Item (time64_array unit) = ℤ
  Item (timestamp_array unit) = ℤ
  Item (interval_array unit) = IntervalItem unit

-- The type oids of Postgres that `get_cell` matches on.
pub data PgType : Type 0 where
  bool_oid : PgType
  bytea_oid : PgType
  int2_oid : PgType
  int4_oid : PgType
  int8_oid : PgType
  float4_oid : PgType
  float8_oid : PgType
  numeric_oid : PgType
  text_oid : PgType
  varchar_oid : PgType
  bpchar_oid : PgType
  name_oid : PgType
  date_oid : PgType
  interval_oid : PgType
  json_oid : PgType
  jsonb_oid : PgType
  time_oid : PgType
  timestamp_oid : PgType
  timestamptz_oid : PgType
  void_oid : PgType
  uuid_oid : PgType
  bool_array_oid : PgType
  text_array_oid : PgType
  varchar_array_oid : PgType
  bpchar_array_oid : PgType
  int2_array_oid : PgType
  int4_array_oid : PgType
  int8_array_oid : PgType
  float4_array_oid : PgType
  float8_array_oid : PgType
  other_oid : PgType

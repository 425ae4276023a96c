-- ===== src/Schema/Cell/Libraries.antt =====
-- What src/schema/cell.rs takes from crates: arrow's arrays, the datums and the numerics of pgrx,
-- serde_json, uuid, and the floating point numbers of Rust. They are parameters of the model.
use pg_analytics.Prelude.{ℕ, ◌≡◌, Bool, Option, some, none, List}
use pg_analytics.Text.{Text}
use pg_analytics.Result.{Result, ok}
use pg_analytics.Schema.Datetime.{Date, Time, DateParts, TimeParts}
use pg_analytics.Schema.Integers.{ℤ}
use pg_analytics.Schema.Cell.Types.{DataType, ArrayType, Item, PgType, list, array_type}

-- An array that a downcast has found to be of its type: its null buffer, its values, and the values
-- in order. `value` panics on an index behind the last one.
pub record View (A : Type 0) : Type 0 where
  pub nulls_is_some : Bool
  pub is_null : ℕ → Bool
  pub value : ℕ → Result A
  pub values : List (Option A)

-- `ListArray`: a value of it is an array.
pub record ListView (Array : Type 0) : Type 0 where
  pub nulls_is_some : Bool
  pub is_null : ℕ → Bool
  pub value : ℕ → Result Array
  pub value_type : DataType

-- `StructArray`: the names of its columns, its fields by name, and the columns.
pub record StructView (Array : Type 0) : Type 0 where
  pub nulls_is_some : Bool
  pub is_null : ℕ → Bool
  pub column_names : List Text
  pub find : Text → Option (ℕ × DataType)
  pub column : ℕ → Result Array

pub record Libraries : Type 1 where
  -- f16 of `half`, f32 and f64, and Rust's casts
  pub F16 : Type 0
  pub F32 : Type 0
  pub F64 : Type 0
  pub f16_to_f32 : F16 → F32
  pub f16_to_f64 : F16 → F64
  pub f32_as_f64 : F32 → F64
  pub f64_as_f32 : F64 → F32
  -- `as i{w}`, which saturates, for the half of 2 ^ w
  pub f32_as_int : ℕ → F32 → ℤ
  pub f64_as_int : ℕ → F64 → ℤ
  pub int_as_f32 : ℤ → F32
  pub int_as_f64 : ℤ → F64
  pub debug_f16 : F16 → Text
  pub debug_f32 : F32 → Text
  pub debug_f64 : F64 → Text
  -- arrow
  pub Array : Type 0
  pub data_type : Array → DataType
  pub len : Array → ℕ
  pub downcast_ref : (a : ArrayType) → Array → Option (View (Item F16 F32 F64 a))
  pub as_list : Array → Option (ListView Array)
  pub as_struct : Array → Option (StructView Array)
  pub debug_type : DataType → Text
  pub type_name : ArrayType → Text
  -- `as_date`, `as_time`, `as_datetime` and `as_datetime_with_tz` of a temporal type
  pub as_date : ArrayType → ℤ → Option (Date ℤ)
  pub as_time : ArrayType → ℤ → Option (Time ℤ)
  pub as_datetime : ArrayType → ℤ → Option (Date ℤ × Time ℤ)
  pub Tz : Type 0
  pub tz_from_str : Text → Result Tz
  pub as_datetime_with_tz : ArrayType → ℤ → Tz → Option (Date ℤ × Time ℤ)
  pub format_decimal : ℤ → ℕ → ℤ → Text
  -- pgrx
  pub type_of_oid : ℕ → PgType
  pub debug_oid : ℕ → Text
  pub text_of_bytes : List ℕ → Text
  pub bytes_of_text : Text → List ℕ
  pub AnyNumeric : Type 0
  pub numeric_from_str : Text → Result AnyNumeric
  pub numeric_from_int : ℤ → AnyNumeric
  pub numeric_from_f32 : F32 → Result AnyNumeric
  pub numeric_from_f64 : F64 → Result AnyNumeric
  pub int_from_numeric : ℕ → AnyNumeric → Result ℤ
  pub f32_from_numeric : AnyNumeric → Result F32
  pub f64_from_numeric : AnyNumeric → Result F64
  pub PgDate : Type 0
  pub PgTime : Type 0
  pub PgTimestamp : Type 0
  pub PgTimestamptz : Type 0
  pub PgInterval : Type 0
  pub PgUuid : Type 0
  pub date_new : DateParts ℤ → Result PgDate
  pub time_new : TimeParts ℤ → Result PgTime
  pub timestamp_new : DateParts ℤ × TimeParts ℤ → Result PgTimestamp
  pub timestamptz_new : DateParts ℤ × TimeParts ℤ → Result PgTimestamptz
  pub with_timezone : DateParts ℤ × TimeParts ℤ × Text → Result PgTimestamptz
  pub timestamp_from_date : PgDate → PgTimestamp
  pub timestamptz_from_date : PgDate → PgTimestamptz
  -- months, days and microseconds
  pub interval_new : ℤ → ℤ → ℤ → Result PgInterval
  pub interval_from_months : ℤ → PgInterval
  -- uuid, and `datum::Uuid::from_slice`
  pub parse_uuid : Text → Result (List ℕ)
  pub uuid_from_slice : List ℕ → Result PgUuid
  -- serde_json
  pub Json : Type 0
  pub json_null : Json
  pub json_bool : Bool → Json
  pub json_int : ℤ → Json
  pub json_string : Text → Json
  pub json_array : List Json → Json
  pub JsonMap : Type 0
  pub json_object : JsonMap → Json
  pub new_map : JsonMap
  pub insert : JsonMap → Text → Json → JsonMap
  -- `Number::from_f64`
  pub number_from_f64 : F64 → Option Json
  pub json_from_str : Text → Result Json
  pub json_to_value : Json → Result Json

module _ (l : Libraries) where
  open l use {Array, data_type, downcast_ref, as_list, F16, F32, F64}

  -- What arrow documents of its arrays: the data type of an array decides which downcasts succeed, and
  -- the values of a list array have the type that it names.
  pub record ArrowLaws : Type 0 where
    pub downcast_some :
        (a : ArrayType) (array : Array)
        → array_type (data_type array) ≡ some a
        → (view : View (Item F16 F32 F64 a)) × (downcast_ref a array ≡ some view)
    pub downcast_none :
        (a : ArrayType) (array : Array)
        → (array_type (data_type array) ≡ some a → ⊥)
        → downcast_ref a array ≡ none
    pub list_some :
        (array : Array) (t : DataType)
        → data_type array ≡ list t
        → (view : ListView Array) × (as_list array ≡ some view)
    pub list_type :
        (array : Array) (view : ListView Array)
        → as_list array ≡ some view
        → data_type array ≡ list view.value_type
    pub list_value :
        (array child : Array) (view : ListView Array) (index : ℕ)
        → as_list array ≡ some view
        → view.value index ≡ ok child
        → data_type child ≡ view.value_type

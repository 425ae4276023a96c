-- ===== src/Datafusion/Attribute.antt =====
-- src/datafusion/src/schema/attribute.rs: whether a column of PostgreSQL fits a field of Arrow.
pub mod Accepted
pub mod Nulls
pub mod Read
use pg_analytics.Prelude.{
  ℕ, Bool, Option, none, some, List, [], ◌∷◌, ◌&&◌, ◌==◌, any, map, if◌then◌else◌,
}
use pg_analytics.Text.{Text, str, concat, same, join}
use pg_analytics.Result.{Result, ok, err, error}
use pg_analytics.Schema.Cell.Types.{
  DataType, boolean, int, float, decimal128, utf8, large_utf8, binary, large_binary, date32, date64,
  time32, time64, timestamp, PgType, bool_oid, bytea_oid, int2_oid, int4_oid, int8_oid, float4_oid,
  float8_oid, numeric_oid, text_oid, varchar_oid, bpchar_oid, date_oid, time_oid, timestamp_oid,
  timestamptz_oid,
}
use pg_analytics.Schema.Cell.Libraries.{Libraries}

-- The oids of `pg_sys`, the search of the name of a type in the catalog, in upper case, and the
-- text of an oid that it has not.
pub record PgTypes : Type 0 where
  pub oid_of : PgType → ℕ
  pub type_name : ℕ → Option Text
  pub debug_raw_oid : ℕ → Text

-- `PgAttribute`
pub record PgAttribute : Type 0 where
  pub name : Text
  pub oid : ℕ

-- `Field` of Arrow, as far as the code reads it.
pub record Field : Type 0 where
  pub name : Text
  pub data_type : DataType

-- `PartialEq` of `PgAttribute`
unfoldable pub attribute_eq : PgAttribute → PgAttribute → Bool
attribute_eq a b = same a.name b.name && (a.oid == b.oid)

-- The types of `supported_attributes`, where there are any.
unfoldable pub supported : DataType → Option (List PgType)
supported binary = some (text_oid ∷ varchar_oid ∷ bpchar_oid ∷ bytea_oid ∷ [])
supported large_binary = some (text_oid ∷ varchar_oid ∷ bpchar_oid ∷ bytea_oid ∷ [])
supported boolean = some (bool_oid ∷ [])
supported utf8 = some (text_oid ∷ varchar_oid ∷ bpchar_oid ∷ [])
supported large_utf8 = some (text_oid ∷ varchar_oid ∷ bpchar_oid ∷ [])
supported (int k) =
    some (int2_oid ∷ int4_oid ∷ int8_oid ∷ float4_oid ∷ float8_oid ∷ numeric_oid ∷ [])
supported (float k) =
    some (int2_oid ∷ int4_oid ∷ int8_oid ∷ float4_oid ∷ float8_oid ∷ numeric_oid ∷ [])
supported (decimal128 p s) =
    some (int2_oid ∷ int4_oid ∷ int8_oid ∷ float4_oid ∷ float8_oid ∷ numeric_oid ∷ [])
supported date32 = some (date_oid ∷ [])
supported date64 = some (date_oid ∷ [])
supported (time32 unit) = some (time_oid ∷ [])
supported (time64 unit) = some (time_oid ∷ [])
supported (timestamp unit none) = some (timestamp_oid ∷ [])
supported (timestamp unit (some tz)) = some (timestamptz_oid ∷ [])
supported t = none

module _ (l : Libraries) (p : PgTypes) where
  open l use {debug_type}
  open p use {oid_of, type_name, debug_raw_oid}

  -- `Debug` of `PgAttribute`
  unfoldable pub debug_attribute : PgAttribute → Text
  debug_attribute a = elim (type_name a.oid) [ none ↦ debug_raw_oid a.oid | some name ↦ name ]

  -- `SchemaError::ColumnNameMismatch`
  unfoldable pub column_name_mismatch : Text → Text → Text
  column_name_mismatch field attribute = concat (
      str "Column name mismatch: Expected column to be named "
      ∷ field
      ∷ str " but found "
      ∷ attribute
      ∷ str ". Note that column names are case-sensitive and must be enclosed in double quotes"
      ∷ [])

  -- `SchemaError::UnsupportedArrowType`
  unfoldable pub unsupported_arrow_type : Text → DataType → Text
  unsupported_arrow_type name t = concat (
      str "Unsupported Arrow type: Column "
      ∷ name
      ∷ str " has Arrow type "
      ∷ debug_type t
      ∷ str
          ", which is not yet supported. Please submit a request at https://github.com/paradedb/paradedb/issues if you would like to see this type supported."
      ∷ [])

  -- `SchemaError::UnsupportedConversion`
  unfoldable pub unsupported_conversion : Text → PgAttribute → DataType → List PgAttribute → Text
  unsupported_conversion name attribute t attributes = concat (
      str "Type mismatch: Column "
      ∷ name
      ∷ str " was assigned type "
      ∷ debug_attribute attribute
      ∷ str ", which is not valid for the underlying Arrow type "
      ∷ debug_type t
      ∷ str ". Please change the column type to one of the supported types: ["
      ∷ join (str ", ") (map debug_attribute attributes)
      ∷ str "]"
      ∷ [])

  abbrev pub attribute_of : Field → PgType → PgAttribute
  attribute_of field t = record { name = field.name; oid = oid_of t }

  -- What follows the `match`, for its types.
  abbrev pub check_supported : Field → PgAttribute → Option (List PgType) → Result (Unit {0})
  check_supported field attribute none =
      err (error (unsupported_arrow_type field.name field.data_type))
  check_supported field attribute (some types) =
      let attributes = map (attribute_of field) types in
      if any (λ a. attribute_eq a attribute) attributes
      then ok tt
      else err (error (unsupported_conversion field.name attribute field.data_type attributes))

  -- `can_convert_to_attribute`
  unfoldable pub can_convert_to_attribute : Field → PgAttribute → Result (Unit {0})
  unfolding supported
  can_convert_to_attribute field attribute =
      if same field.name attribute.name
      then check_supported field attribute (supported field.data_type)
      else err (error (column_name_mismatch field.name attribute.name))

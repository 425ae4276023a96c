-- ===== src/Datafusion/Attribute/Read.antt =====
-- The earlier `get_cell` on the columns that `can_convert_to_attribute` accepts.
use pg_analytics.Prelude.{ℕ, arith, true, false, not, ◌&&◌, none, ◌≡◌, refl}
use pg_analytics.Result.{ok}
use pg_analytics.Schema.Cell.Types.{
  DataType, boolean, PgType, bool_oid, bytea_oid, int2_oid, int4_oid, int8_oid, float4_oid,
  float8_oid, numeric_oid, text_oid, varchar_oid, bpchar_oid, date_oid, time_oid, timestamp_oid,
  timestamptz_oid,
}
use pg_analytics.Schema.Cell.Libraries.{Libraries}
use pg_analytics.Schema.Cell.Listed.{is_i64, is_number}
use pg_analytics.Schema.Cell.Listed.Nulls.{null_at}
use pg_analytics.Datafusion.Cell.Values.{LakeLibraries, lake_primitive_value}
use pg_analytics.Datafusion.Cell.Get.{lake_get_cell, lake_cell_of}
use pg_analytics.Datafusion.Attribute.{PgTypes, PgAttribute, Field, can_convert_to_attribute}
use pg_analytics.Datafusion.Attribute.Accepted.{
  lake_listed, unit_fits, can_convert_to_attribute-lake_listed,
}
use pg_analytics.Datafusion.Attribute.Nulls.{
  lake_int2-LakeNullIsNone, lake_int4-LakeNullIsNone, lake_int8-LakeNullIsNone,
  lake_float4-LakeNullIsNone, lake_float8-LakeNullIsNone, lake_numeric-LakeNullIsNone,
  lake_text-LakeNullIsNone, lake_date-LakeNullIsNone, lake_time-LakeNullIsNone,
  lake_timestamp-LakeNullIsNone, lake_timestamptz-LakeNullIsNone,
}

module _ (l : Libraries) (k : LakeLibraries) where
  open l use {Array, data_type, type_of_oid}

  lake_bool-LakeNullIsNone :
      (t : DataType) (array : Array) (index oid : ℕ)
      → lake_listed bool_oid t ≡ true
      → null_at l t array index ≡ true
      → lake_cell_of l k bool_oid array index oid ≡ ok none
  unfolding lake_cell_of lake_primitive_value
  lake_bool-LakeNullIsNone boolean array index oid listed is_null = ground arith
  lake_bool-LakeNullIsNone t array index oid listed is_null = ground arith

  lake_cell_of-null :
      (p : PgType) (array : Array) (index oid : ℕ)
      → lake_listed p (data_type array) ≡ true
      → (p ≡ int2_oid → is_i64 (data_type array) ≡ false)
      → null_at l (data_type array) array index ≡ true
      → lake_cell_of l k p array index oid ≡ ok none
  unfolding lake_cell_of
  lake_cell_of-null bool_oid array index oid listed wide is_null =
      lake_bool-LakeNullIsNone (data_type array) array index oid listed is_null
  lake_cell_of-null int2_oid array index oid listed wide is_null =
      let narrow : (is_number (data_type array) && not (is_i64 (data_type array))) ≡ true =
        ground (arith, listed, wide refl) in
      lake_int2-LakeNullIsNone l k (data_type array) array index oid narrow is_null
  lake_cell_of-null int4_oid array index oid listed wide is_null =
      lake_int4-LakeNullIsNone l k (data_type array) array index oid listed is_null
  lake_cell_of-null int8_oid array index oid listed wide is_null =
      lake_int8-LakeNullIsNone l k (data_type array) array index oid listed is_null
  lake_cell_of-null float4_oid array index oid listed wide is_null =
      lake_float4-LakeNullIsNone l k (data_type array) array index oid listed is_null
  lake_cell_of-null float8_oid array index oid listed wide is_null =
      lake_float8-LakeNullIsNone l k (data_type array) array index oid listed is_null
  lake_cell_of-null numeric_oid array index oid listed wide is_null =
      lake_numeric-LakeNullIsNone l k (data_type array) array index oid listed is_null
  lake_cell_of-null text_oid array index oid listed wide is_null =
      lake_text-LakeNullIsNone l k (data_type array) array index oid listed is_null
  lake_cell_of-null varchar_oid array index oid listed wide is_null =
      lake_text-LakeNullIsNone l k (data_type array) array index oid listed is_null
  lake_cell_of-null bpchar_oid array index oid listed wide is_null =
      lake_text-LakeNullIsNone l k (data_type array) array index oid listed is_null
  lake_cell_of-null bytea_oid array index oid listed wide is_null =
      lake_text-LakeNullIsNone l k (data_type array) array index oid listed is_null
  lake_cell_of-null date_oid array index oid listed wide is_null =
      lake_date-LakeNullIsNone l k (data_type array) array index oid listed is_null
  lake_cell_of-null time_oid array index oid listed wide is_null =
      lake_time-LakeNullIsNone l k (data_type array) array index oid listed is_null
  lake_cell_of-null timestamp_oid array index oid listed wide is_null =
      lake_timestamp-LakeNullIsNone l k (data_type array) array index oid listed is_null
  lake_cell_of-null timestamptz_oid array index oid listed wide is_null =
      lake_timestamptz-LakeNullIsNone l k (data_type array) array index oid listed is_null
  lake_cell_of-null p array index oid listed wide is_null = ground (arith, listed)

module _ (l : Libraries) (p : PgTypes) (oids : (t : PgType) → l.type_of_oid (p.oid_of t) ≡ t) where
  open l use {Array, data_type, type_of_oid}

  -- A column that can_convert_to_attribute accepts for a field of Arrow is one that the earlier
  -- get_cell reads: a null in an array of the field's type is read as no cell, without an error,
  -- unless the column is INT2 and the array has 64-bit integers, where the widths of times have the
  -- units that Arrow gives them, and the constants of pg_sys are the oids that get_cell tells apart.
  pub can_convert_to_attribute-lake_get_cell :
      (k : LakeLibraries) (field : Field) (attribute : PgAttribute) (array : Array) (index : ℕ)
      → can_convert_to_attribute l p field attribute ≡ ok tt
      → data_type array ≡ field.data_type
      → unit_fits field.data_type ≡ true
      → (type_of_oid attribute.oid ≡ int2_oid → is_i64 field.data_type ≡ false)
      → null_at l field.data_type array index ≡ true
      → lake_get_cell l k array index attribute.oid ≡ ok none
  unfolding lake_get_cell
  can_convert_to_attribute-lake_get_cell k field attribute array index accepted same_type fits wide
        is_null =
      lake_cell_of-null l k (type_of_oid attribute.oid) array index attribute.oid
        (rw same_type (can_convert_to_attribute-lake_listed l p oids field attribute accepted fits))
        (λ e. rw same_type (wide e)) (rw same_type is_null)

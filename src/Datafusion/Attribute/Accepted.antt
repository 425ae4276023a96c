-- ===== src/Datafusion/Attribute/Accepted.antt =====
-- The columns that `can_convert_to_attribute` accepts.
use pg_analytics.Prelude.{
  Bool, true, false, Option, none, some, List, [], ◌∷◌, ◌==◌, ◌||◌, any, map, arith, ◌≡◌, refl, All,
  Bool-cases, Option-cases, inl, inr, ==_iff,
}
use pg_analytics.Result.{ok}
use pg_analytics.Schema.Cell.Types.{
  DataType, boolean, int, float, decimal128, utf8, large_utf8, binary, large_binary, date32, date64,
  time32, time64, timestamp, PgType, bool_oid, bytea_oid, int2_oid, int4_oid, int8_oid, float4_oid,
  float8_oid, numeric_oid, text_oid, varchar_oid, bpchar_oid, date_oid, time_oid, timestamp_oid,
  timestamptz_oid,
}
use pg_analytics.Schema.Cell.Libraries.{Libraries}
use pg_analytics.Schema.Cell.Listed.{
  is_number, is_string, is_binary, is_date, is_time, is_timestamp,
}
use pg_analytics.Datafusion.Attribute.{
  PgTypes, PgAttribute, Field, attribute_eq, supported, attribute_of, can_convert_to_attribute,
}

abbrev is_boolean : DataType → Bool
is_boolean boolean = true
is_boolean t = false

-- The pairs of types that the earlier `get_cell` lists, as a table.
abbrev pub lake_listed : PgType → DataType → Bool
lake_listed bool_oid t = is_boolean t
lake_listed bytea_oid t = is_string t || is_binary t
lake_listed text_oid t = is_string t || is_binary t
lake_listed varchar_oid t = is_string t || is_binary t
lake_listed bpchar_oid t = is_string t || is_binary t
lake_listed int2_oid t = is_number t
lake_listed int4_oid t = is_number t
lake_listed int8_oid t = is_number t
lake_listed float4_oid t = is_number t
lake_listed float8_oid t = is_number t
lake_listed numeric_oid t = is_number t
lake_listed date_oid t = is_date t
lake_listed time_oid t = is_time t
lake_listed timestamp_oid t = is_timestamp t
lake_listed timestamptz_oid t = is_timestamp t
lake_listed p t = false

-- A type other than times in a unit that Arrow has not for their width.
abbrev pub unit_fits : DataType → Bool
unit_fits (time32 unit) = is_time (time32 unit)
unit_fits (time64 unit) = is_time (time64 unit)
unit_fits t = true

abbrev AllListed : Option (List PgType) → DataType → Type 0
AllListed none t = Unit
AllListed (some types) t = All (λ p. lake_listed p t ≡ true) types

supported-AllListed : (t : DataType) → unit_fits t ≡ true → AllListed (supported t) t
unfolding supported
supported-AllListed binary fits = (refl, (refl, (refl, (refl, tt))))
supported-AllListed large_binary fits = (refl, (refl, (refl, (refl, tt))))
supported-AllListed boolean fits = (refl, tt)
supported-AllListed utf8 fits = (refl, (refl, (refl, tt)))
supported-AllListed large_utf8 fits = (refl, (refl, (refl, tt)))
supported-AllListed (int k) fits = (refl, (refl, (refl, (refl, (refl, (refl, tt))))))
supported-AllListed (float k) fits = (refl, (refl, (refl, (refl, (refl, (refl, tt))))))
supported-AllListed (decimal128 p s) fits = (refl, (refl, (refl, (refl, (refl, (refl, tt))))))
supported-AllListed date32 fits = (refl, tt)
supported-AllListed date64 fits = (refl, tt)
supported-AllListed (time32 unit) fits = (fits, tt)
supported-AllListed (time64 unit) fits = (fits, tt)
supported-AllListed (timestamp unit none) fits = (refl, tt)
supported-AllListed (timestamp unit (some tz)) fits = (refl, tt)
supported-AllListed t fits = tt

module _ (l : Libraries) (p : PgTypes) (oids : (t : PgType) → l.type_of_oid (p.oid_of t) ≡ t) where
  open l use {type_of_oid}

  -- An attribute that equals one of a list has the type of that one.
  any-attribute_eq :
      (P : PgType → Type 0) (field : Field) (attribute : PgAttribute) (types : List PgType)
      → any (λ a. attribute_eq a attribute) (map (attribute_of l p field) types) ≡ true
      → All P types
      → P (type_of_oid attribute.oid)
  unfolding attribute_eq
  any-attribute_eq P field attribute [] found holds = absurd (ground (arith, found))
  any-attribute_eq P field attribute (t ∷ types) found (first, rest) =
      elim (Bool-cases (p.oid_of t == attribute.oid)) [
        | inl e ↦ rw (← (==_iff (p.oid_of t) attribute.oid).0 e, oids t) first
        | inr e ↦ any-attribute_eq P field attribute types (ground (arith, found, e)) rest
      ]

  pub can_convert_to_attribute-lake_listed :
      (field : Field) (attribute : PgAttribute)
      → can_convert_to_attribute l p field attribute ≡ ok tt
      → unit_fits field.data_type ≡ true
      → lake_listed (type_of_oid attribute.oid) field.data_type ≡ true
  unfolding can_convert_to_attribute
  can_convert_to_attribute-lake_listed field attribute accepted fits =
      elim (Option-cases (supported field.data_type)) [
        | inl e ↦ ground (arith, accepted, e)
        | inr (types, e) ↦
            any-attribute_eq (λ t. lake_listed t field.data_type ≡ true) field attribute types
              (ground (arith, accepted, e)) (rw e at (supported-AllListed field.data_type fits))
      ]

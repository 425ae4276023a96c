-- ===== src/Tests/Lake.antt =====
-- The earlier reading of cells on small arrays.
use pg_analytics.Prelude.{
  ℕ, true, Option, List, none, some, [], ◌∷◌, ◌≡◌, ◌≢◌, arith, refl, sym, ap,
}
use pg_analytics.Text.{str, same}
use pg_analytics.Result.{ok, error}
use pg_analytics.Schema.Integers.{ℤ, pos, negsuc}
use pg_analytics.Schema.Cell.Types.{
  i64, day_time, month_day_nano, ArrayType, int_array, string_array, large_string_array,
  interval_array, Item, PgType, int, other_oid, bool_oid, bytea_oid, name_oid, int8_oid, int2_oid,
  int4_oid, text_oid, json_oid, float4_oid, float8_oid, bool_array_oid, int2_array_oid,
  int4_array_oid, text_array_oid, bpchar_array_oid, varchar_array_oid, int8_array_oid,
  float4_array_oid, float8_array_oid, bpchar_oid, varchar_oid, date_oid, time_oid, timestamp_oid,
  timestamptz_oid, interval_oid, numeric_oid, void_oid, uuid_oid, jsonb_oid,
}
use pg_analytics.Schema.Cell.Libraries.{View}
use pg_analytics.Text.Decimal.{to_string}
use pg_analytics.Datafusion.Attribute.{
  PgTypes, PgAttribute, Field, attribute_eq, supported, can_convert_to_attribute,
}
use pg_analytics.Datafusion.Attribute.Read.{can_convert_to_attribute-lake_get_cell}
use pg_analytics.Schema.Cell.Cells.{i32_cell}
use pg_analytics.Schema.Cell.Get.{get_cell}
use pg_analytics.Datafusion.Cell.Values.{LakeLibraries}
use pg_analytics.Datafusion.Cell.Get.{lake_get_cell}
use pg_analytics.Datafusion.Cell.Refined.{NullLaw, Utf8Law}
use pg_analytics.Datafusion.Cell.Refined.Cells.{lake_get_cell-get_cell}
use pg_analytics.Tests.Arrays.{
  toy_libraries, toy_downcast, view_of, ToyArray, i64s, texts, large_texts, day_times,
  month_day_nanos,
}
use mathlib.Core.Option.{some-injective}

abbrev toy_lake : LakeLibraries
toy_lake = record {
  cast_error = λ a. error (str "could not cast the value");
  from_utf8 = λ bytes. ok bytes;
}

abbrev narrow : ToyArray
narrow = i64s (some (negsuc 6) ∷ none ∷ [])

lake_get_cell-narrow :
    lake_get_cell toy_libraries toy_lake narrow 0 23 ≡ ok (some (i32_cell (negsuc 6)))
unfolding lake_get_cell pg_analytics.Datafusion.Cell.Get.lake_cell_of
    pg_analytics.Datafusion.Cell.Numbers.lake_int4
    pg_analytics.Datafusion.Cell.Values.lake_primitive_value pg_analytics.Schema.Integers.cast
lake_get_cell-narrow = refl

view_of-nulls_is_some :
    {A : Type 0} (vs : List (Option A)) (view : View A)
    → some (view_of vs) ≡ some view
    → view.nulls_is_some ≡ true
view_of-nulls_is_some {A} vs view h =
    sym (ap (λ (v : View A). v.nulls_is_some) (some-injective (view_of vs) view h))

toy_downcast-nulls_is_some :
    (a : ArrayType) (array : ToyArray) (view : View (Item ℤ ℤ ℤ a))
    → toy_downcast a array ≡ some view
    → view.nulls_is_some ≡ true
toy_downcast-nulls_is_some (int_array i64) (i64s vs) view h = view_of-nulls_is_some vs view h
toy_downcast-nulls_is_some string_array (texts vs) view h = view_of-nulls_is_some vs view h
toy_downcast-nulls_is_some large_string_array (large_texts vs) view h =
    view_of-nulls_is_some vs view h
toy_downcast-nulls_is_some (interval_array day_time) (day_times vs) view h =
    view_of-nulls_is_some vs view h
toy_downcast-nulls_is_some (interval_array month_day_nano) (month_day_nanos vs) view h =
    view_of-nulls_is_some vs view h
toy_downcast-nulls_is_some a array view h = ground (arith, h)

toy-NullLaw : NullLaw toy_libraries toy_lake
toy-NullLaw a array view index h null = toy_downcast-nulls_is_some a array view h

toy-Utf8Law : Utf8Law toy_libraries toy_lake
toy-Utf8Law bytes text h = ground (arith, h)

int4_oid-bytea_oid : int4_oid ≢ bytea_oid
int4_oid-bytea_oid h = ground (arith, h)

lake_get_cell-get_cell_example :
    get_cell toy_libraries narrow 0 23 (str "n") ≡ ok (some (i32_cell (negsuc 6)))
lake_get_cell-get_cell_example =
    lake_get_cell-get_cell toy_libraries toy_lake toy-NullLaw toy-Utf8Law narrow 0 23 (str "n")
      (some (i32_cell (negsuc 6))) int4_oid-bytea_oid lake_get_cell-narrow

abbrev toy_oid_of : PgType → ℕ
toy_oid_of bool_oid = 16
toy_oid_of bytea_oid = 17
toy_oid_of name_oid = 19
toy_oid_of int8_oid = 20
toy_oid_of int2_oid = 21
toy_oid_of int4_oid = 23
toy_oid_of text_oid = 25
toy_oid_of json_oid = 114
toy_oid_of float4_oid = 700
toy_oid_of float8_oid = 701
toy_oid_of bool_array_oid = 1000
toy_oid_of int2_array_oid = 1005
toy_oid_of int4_array_oid = 1007
toy_oid_of text_array_oid = 1009
toy_oid_of bpchar_array_oid = 1014
toy_oid_of varchar_array_oid = 1015
toy_oid_of int8_array_oid = 1016
toy_oid_of float4_array_oid = 1021
toy_oid_of float8_array_oid = 1022
toy_oid_of bpchar_oid = 1042
toy_oid_of varchar_oid = 1043
toy_oid_of date_oid = 1082
toy_oid_of time_oid = 1083
toy_oid_of timestamp_oid = 1114
toy_oid_of timestamptz_oid = 1184
toy_oid_of interval_oid = 1186
toy_oid_of numeric_oid = 1700
toy_oid_of void_oid = 2278
toy_oid_of uuid_oid = 2950
toy_oid_of jsonb_oid = 3802
toy_oid_of other_oid = 0

abbrev pub toy_types : PgTypes
toy_types = record { oid_of = toy_oid_of; type_name = λ oid. none; debug_raw_oid = to_string }

toy_types-inverse : (t : PgType) → toy_libraries.type_of_oid (toy_types.oid_of t) ≡ t
toy_types-inverse other_oid = refl
toy_types-inverse _ = refl

abbrev pub price : Field
price = record { name = str "price"; data_type = int i64 }

abbrev pub price_as_float8 : PgAttribute
price_as_float8 = record { name = str "price"; oid = 701 }

price_accepted : can_convert_to_attribute toy_libraries toy_types price price_as_float8 ≡ ok tt
unfolding can_convert_to_attribute attribute_eq supported same str
price_accepted = refl

can_convert_to_attribute-lake_get_cell_example :
    lake_get_cell toy_libraries toy_lake narrow 1 701 ≡ ok none
can_convert_to_attribute-lake_get_cell_example =
    can_convert_to_attribute-lake_get_cell toy_libraries toy_types toy_types-inverse toy_lake price
      price_as_float8 narrow 1 price_accepted refl refl (λ e. ground (arith, e)) refl

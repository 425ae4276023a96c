-- ===== src/Tests/Arrays.antt =====
-- A small arrow: arrays as lists of values, floats as whole numbers, JSON as its text.
use pg_analytics.Prelude.{
  ℕ, zero, suc, Bool, true, false, Option, none, some, List, [], ◌∷◌, ◌++◌, if◌then◌else◌, ◌==◌,
  length, arith, ◌≡◌, sym, refl, ap, ◌∙◌,
}
use pg_analytics.Text.{Text, str, join}
use pg_analytics.Text.Decimal.{to_string}
use pg_analytics.Result.{Result, ok, err, panic, error}
use pg_analytics.Schema.Integers.{ℤ, pos, negsuc}
use pg_analytics.Schema.Cell.Types.{
  DataType, int, utf8, large_utf8, interval, list, i64, day_time, month_day_nano, ArrayType,
  int_array, string_array, large_string_array, interval_array, Item, PgType, other_oid, bool_oid,
  bytea_oid, name_oid, int8_oid, int2_oid, int4_oid, text_oid, json_oid, float4_oid, float8_oid,
  bool_array_oid, int2_array_oid, int4_array_oid, text_array_oid, bpchar_array_oid,
  varchar_array_oid, int8_array_oid, float4_array_oid, float8_array_oid, bpchar_oid, varchar_oid,
  date_oid, time_oid, timestamp_oid, timestamptz_oid, interval_oid, numeric_oid, void_oid, uuid_oid,
  jsonb_oid, array_type,
}
use pg_analytics.Schema.Cell.Libraries.{Libraries, View, ListView, ArrowLaws}
use mathlib.Core.Option.{some-injective}

pub data ToyArray : Type 0 where
  i64s : List (Option ℤ) → ToyArray
  texts : List (Option Text) → ToyArray
  large_texts : List (Option Text) → ToyArray
  day_times : List (Option (ℤ × ℤ)) → ToyArray
  month_day_nanos : List (Option (ℤ × ℤ × ℤ)) → ToyArray
  i64_rows : List (Option (List (Option ℤ))) → ToyArray
  i64_row_rows : List (Option (List (Option (List (Option ℤ))))) → ToyArray
  large_text_rows : List (Option (List (Option Text))) → ToyArray

abbrev toy_type : ToyArray → DataType
toy_type (i64s vs) = int i64
toy_type (texts vs) = utf8
toy_type (large_texts vs) = large_utf8
toy_type (day_times vs) = interval day_time
toy_type (month_day_nanos vs) = interval month_day_nano
toy_type (i64_rows vs) = list (int i64)
toy_type (i64_row_rows vs) = list (list (int i64))
toy_type (large_text_rows vs) = list large_utf8

abbrev toy_len : ToyArray → ℕ
toy_len (i64s vs) = length vs
toy_len (texts vs) = length vs
toy_len (large_texts vs) = length vs
toy_len (day_times vs) = length vs
toy_len (month_day_nanos vs) = length vs
toy_len (i64_rows vs) = length vs
toy_len (i64_row_rows vs) = length vs
toy_len (large_text_rows vs) = length vs

abbrev null_at_index : {A : Type 0} → List (Option A) → ℕ → Bool
null_at_index [] i = false
null_at_index (none ∷ vs) zero = true
null_at_index (some v ∷ vs) zero = false
null_at_index (v ∷ vs) (suc i) = null_at_index vs i

abbrev value_at_index : {A : Type 0} → List (Option A) → ℕ → Result A
value_at_index [] i = err (panic (str "index out of bounds"))
value_at_index (none ∷ vs) zero = err (panic (str "null"))
value_at_index (some v ∷ vs) zero = ok v
value_at_index (v ∷ vs) (suc i) = value_at_index vs i

abbrev pub view_of : {A : Type 0} → List (Option A) → View A
view_of vs = record {
  nulls_is_some = true;
  is_null = null_at_index vs;
  value = value_at_index vs;
  values = vs;
}

abbrev pub toy_downcast : (a : ArrayType) → ToyArray → Option (View (Item ℤ ℤ ℤ a))
toy_downcast (int_array i64) (i64s vs) = some (view_of vs)
toy_downcast string_array (texts vs) = some (view_of vs)
toy_downcast large_string_array (large_texts vs) = some (view_of vs)
toy_downcast (interval_array day_time) (day_times vs) = some (view_of vs)
toy_downcast (interval_array month_day_nano) (month_day_nanos vs) = some (view_of vs)
toy_downcast a array = none

abbrev pub rows_of : {A : Type 0} → DataType → (A → ToyArray) → List (Option A) → ListView ToyArray
rows_of t f vs = record {
  nulls_is_some = true;
  is_null = null_at_index vs;
  value = λ i. elim (value_at_index vs i) [ ok v ↦ ok (f v) | err e ↦ err e ];
  value_type = t;
}

abbrev pub toy_list : ToyArray → Option (ListView ToyArray)
toy_list (i64_rows vs) = some (rows_of (int i64) i64s vs)
toy_list (i64_row_rows vs) = some (rows_of (list (int i64)) i64_rows vs)
toy_list (large_text_rows vs) = some (rows_of large_utf8 large_texts vs)
toy_list a = none

-- The oids of the catalog of Postgres.
abbrev oids : List (ℕ × PgType)
oids =
    (16, bool_oid)
    ∷ (17, bytea_oid)
    ∷ (19, name_oid)
    ∷ (20, int8_oid)
    ∷ (21, int2_oid)
    ∷ (23, int4_oid)
    ∷ (25, text_oid)
    ∷ (114, json_oid)
    ∷ (700, float4_oid)
    ∷ (701, float8_oid)
    ∷ (1000, bool_array_oid)
    ∷ (1005, int2_array_oid)
    ∷ (1007, int4_array_oid)
    ∷ (1009, text_array_oid)
    ∷ (1014, bpchar_array_oid)
    ∷ (1015, varchar_array_oid)
    ∷ (1016, int8_array_oid)
    ∷ (1021, float4_array_oid)
    ∷ (1022, float8_array_oid)
    ∷ (1042, bpchar_oid)
    ∷ (1043, varchar_oid)
    ∷ (1082, date_oid)
    ∷ (1083, time_oid)
    ∷ (1114, timestamp_oid)
    ∷ (1184, timestamptz_oid)
    ∷ (1186, interval_oid)
    ∷ (1700, numeric_oid)
    ∷ (2278, void_oid)
    ∷ (2950, uuid_oid)
    ∷ (3802, jsonb_oid)
    ∷ []

abbrev type_in : ℕ → List (ℕ × PgType) → PgType
type_in n [] = other_oid
type_in n ((oid, t) ∷ rest) = if n == oid then t else type_in n rest

abbrev toy_oid : ℕ → PgType
toy_oid n = type_in n oids

abbrev int_text : ℤ → Text
int_text (pos n) = to_string n
int_text (negsuc n) = b'-' ∷ to_string (suc n)

abbrev unknown : {A : Type 0} → Result A
unknown = err (error (str "not in this model"))

abbrev pub toy_libraries : Libraries
toy_libraries = record {
  F16 = ℤ;
  F32 = ℤ;
  F64 = ℤ;
  f16_to_f32 = λ v. v;
  f16_to_f64 = λ v. v;
  f32_as_f64 = λ v. v;
  f64_as_f32 = λ v. v;
  f32_as_int = λ half v. v;
  f64_as_int = λ half v. v;
  int_as_f32 = λ v. v;
  int_as_f64 = λ v. v;
  debug_f16 = int_text;
  debug_f32 = int_text;
  debug_f64 = int_text;
  Array = ToyArray;
  data_type = toy_type;
  len = toy_len;
  downcast_ref = toy_downcast;
  as_list = toy_list;
  as_struct = λ array. none;
  debug_type = λ t. str "a type";
  type_name = λ a. str "an array";
  as_date = λ a v. none;
  as_time = λ a v. none;
  as_datetime = λ a v. none;
  Tz = Text;
  tz_from_str = λ t. ok t;
  as_datetime_with_tz = λ a v tz. none;
  format_decimal = λ v p s. int_text v;
  type_of_oid = toy_oid;
  debug_oid = to_string;
  text_of_bytes = λ b. b;
  bytes_of_text = λ t. t;
  AnyNumeric = ℤ;
  numeric_from_str = λ t. unknown;
  numeric_from_int = λ v. v;
  numeric_from_f32 = λ v. ok v;
  numeric_from_f64 = λ v. ok v;
  int_from_numeric = λ half v. ok v;
  f32_from_numeric = λ v. ok v;
  f64_from_numeric = λ v. ok v;
  PgDate = Unit;
  PgTime = Unit;
  PgTimestamp = Unit;
  PgTimestamptz = Unit;
  PgInterval = ℤ × ℤ × ℤ;
  PgUuid = List ℕ;
  date_new = λ d. ok tt;
  time_new = λ t. ok tt;
  timestamp_new = λ t. ok tt;
  timestamptz_new = λ t. ok tt;
  with_timezone = λ t. ok tt;
  timestamp_from_date = λ d. tt;
  timestamptz_from_date = λ d. tt;
  interval_new = λ months days micros. ok (months, days, micros);
  interval_from_months = λ months. (months, pos 0, pos 0);
  parse_uuid = λ t. ok t;
  uuid_from_slice = λ b. ok b;
  Json = Text;
  json_null = str "null";
  json_bool = λ b. if b then str "true" else str "false";
  json_int = int_text;
  json_string = λ t. t;
  json_array = λ vs. (b'[' ∷ []) ++ (join (b',' ∷ []) vs ++ b']' ∷ []);
  JsonMap = Text;
  json_object = λ m. m;
  new_map = [];
  insert = λ m name v. m ++ (name ++ v);
  number_from_f64 = λ v. some (int_text v);
  json_from_str = λ t. ok t;
  json_to_value = λ v. ok v;
}

toy_downcast-some :
    (a : ArrayType) (array : ToyArray)
    → array_type (toy_type array) ≡ some a
    → (view : View (Item ℤ ℤ ℤ a)) × (toy_downcast a array ≡ some view)
toy_downcast-some a (i64s vs) h =
    let e : a ≡ int_array i64 = ground (arith, h) in rw e (view_of vs, refl)
toy_downcast-some a (texts vs) h =
    let e : a ≡ string_array = ground (arith, h) in rw e (view_of vs, refl)
toy_downcast-some a (large_texts vs) h =
    let e : a ≡ large_string_array = ground (arith, h) in rw e (view_of vs, refl)
toy_downcast-some a (day_times vs) h =
    let e : a ≡ interval_array day_time = ground (arith, h) in rw e (view_of vs, refl)
toy_downcast-some a (month_day_nanos vs) h =
    let e : a ≡ interval_array month_day_nano = ground (arith, h) in rw e (view_of vs, refl)
toy_downcast-some a (i64_rows vs) h = ground (arith, h)
toy_downcast-some a (i64_row_rows vs) h = ground (arith, h)
toy_downcast-some a (large_text_rows vs) h = ground (arith, h)

toy_downcast-none :
    (a : ArrayType) (array : ToyArray)
    → (array_type (toy_type array) ≡ some a → ⊥)
    → toy_downcast a array ≡ none
toy_downcast-none (int_array i64) (i64s vs) h = ground (arith, h refl)
toy_downcast-none string_array (texts vs) h = ground (arith, h refl)
toy_downcast-none large_string_array (large_texts vs) h = ground (arith, h refl)
toy_downcast-none (interval_array day_time) (day_times vs) h = ground (arith, h refl)
toy_downcast-none (interval_array month_day_nano) (month_day_nanos vs) h = ground (arith, h refl)
toy_downcast-none a array h = refl

toy_list-some :
    (array : ToyArray) (t : DataType)
    → toy_type array ≡ list t
    → (view : ListView ToyArray) × (toy_list array ≡ some view)
toy_list-some (i64_rows vs) t h = (rows_of (int i64) i64s vs, refl)
toy_list-some (i64_row_rows vs) t h = (rows_of (list (int i64)) i64_rows vs, refl)
toy_list-some (large_text_rows vs) t h = (rows_of large_utf8 large_texts vs, refl)
toy_list-some array t h = ground (arith, h)

toy_list_type :
    (array : ToyArray) (view : ListView ToyArray)
    → toy_list array ≡ some view
    → toy_type array ≡ list view.value_type
toy_list_type (i64_rows vs) view h =
    ap (λ v. list v.value_type) (some-injective (rows_of (int i64) i64s vs) view h)
toy_list_type (i64_row_rows vs) view h =
    ap (λ v. list v.value_type) (some-injective (rows_of (list (int i64)) i64_rows vs) view h)
toy_list_type (large_text_rows vs) view h =
    ap (λ v. list v.value_type) (some-injective (rows_of large_utf8 large_texts vs) view h)
toy_list_type array view h = ground (arith, h)

-- A row of the view made by `f` is an array of the type that the view names.
row_type :
    {A : Type 0} (t : DataType) (f : A → ToyArray) (vs : List (Option A)) (index : ℕ)
    (child : ToyArray)
    → ((v : A) → toy_type (f v) ≡ t)
    → (rows_of t f vs).value index ≡ ok child
    → toy_type child ≡ t
row_type t f [] index child typed h = ground (arith, h)
row_type t f (none ∷ vs) zero child typed h = ground (arith, h)
row_type t f (some v ∷ vs) zero child typed h =
    let e : f v ≡ child = ground (arith, h) in ap toy_type (sym e) ∙ typed v
row_type t f (none ∷ vs) (suc index) child typed h = row_type t f vs index child typed h
row_type t f (some v ∷ vs) (suc index) child typed h = row_type t f vs index child typed h

toy_list_value :
    (array child : ToyArray) (view : ListView ToyArray) (index : ℕ)
    → toy_list array ≡ some view
    → view.value index ≡ ok child
    → toy_type child ≡ view.value_type
toy_list_value (i64_rows vs) child view index h v =
    let e = some-injective (rows_of (int i64) i64s vs) view h in
    row_type (int i64) i64s vs index child (λ x. refl) (rw (sym e) at v) ∙ ap (λ x. x.value_type) e
toy_list_value (i64_row_rows vs) child view index h v =
    let e = some-injective (rows_of (list (int i64)) i64_rows vs) view h in
    row_type (list (int i64)) i64_rows vs index child (λ x. refl) (rw (sym e) at v)
    ∙ ap (λ x. x.value_type) e
toy_list_value (large_text_rows vs) child view index h v =
    let e = some-injective (rows_of large_utf8 large_texts vs) view h in
    row_type large_utf8 large_texts vs index child (λ x. refl) (rw (sym e) at v)
    ∙ ap (λ x. x.value_type) e
toy_list_value array child view index h v = ground (arith, h)

pub toy-ArrowLaws : ArrowLaws toy_libraries
toy-ArrowLaws = record {
  downcast_some = toy_downcast-some;
  downcast_none = toy_downcast-none;
  list_some = toy_list-some;
  list_type = toy_list_type;
  list_value = toy_list_value;
}

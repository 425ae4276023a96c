-- ===== src/Schema/Cell/Nested.antt =====
-- src/schema/cell.rs: structs and lists as JSON.

use pg_analytics.Prelude.{ℕ, zero, suc, ◌&&◌, if◌then◌else◌, Option, none, some, List, [], ◌∷◌, map}
use pg_analytics.Text.{Text, str, concat}
use pg_analytics.Result.{Result, ok, err, error, panic, ok_or, ◌>>=◌}
use pg_analytics.Schema.Cell.Types.{
  DataType, boolean, int, float, decimal128, utf8, large_utf8, struct, list, i8, i16, i32, i64, u8,
  u16, u32, u64, f16, f32, f64, boolean_array, int_array, float_array, string_array,
  large_string_array,
}
use pg_analytics.Schema.Cell.Libraries.{Libraries, StructView, ListView}
use pg_analytics.Schema.Cell.Values.{
  get_primitive_value, get_uint_value, get_decimal_value, get_primitive_list_value,
  get_string_list_value, as_list_array,
}

module _ (l : Libraries) where
  open l use {
    F64, f16_to_f32, f32_as_f64, debug_f16, debug_f32, debug_f64, Array, data_type, len, as_struct,
    debug_type, f64_from_numeric, Json, json_null, json_bool, json_int, json_string, json_array,
    JsonMap, json_object, new_map, insert, number_from_f64,
  }

  -- The value of a field, if it is not null.
  abbrev insert_some : {A : Type 0} → JsonMap → Text → (A → Result Json) → Option A → Result JsonMap
  insert_some m name f none = ok m
  insert_some m name f (some v) = f v >>= λ json. ok (insert m name json)

  abbrev insert_value :
      {A : Type 0} → JsonMap → Text → (A → Result Json) → Result (Option A) → Result JsonMap
  insert_value m name f read = read >>= insert_some m name f

  -- `Number::from_f64(value).ok_or_else(…)`
  abbrev finite : Text → F64 → Result Json
  finite debug v =
      ok_or (number_from_f64 v)
        (error (concat (str "failed to convert " ∷ debug ∷ str " to f64" ∷ [])))

  -- The body of the loop for a field of the given type.
  unfoldable pub insert_field : DataType → JsonMap → Text → Array → ℕ → Result JsonMap
  insert_field boolean m name column index =
      insert_value m name (λ v. ok (json_bool v)) (get_primitive_value l boolean_array column index)
  insert_field (int i8) m name column index =
      insert_value m name (λ v. ok (json_int v)) (get_primitive_value l (int_array i8) column index)
  insert_field (int i16) m name column index =
      insert_value m name (λ v. ok (json_int v))
        (get_primitive_value l (int_array i16) column index)
  insert_field (int i32) m name column index =
      insert_value m name (λ v. ok (json_int v))
        (get_primitive_value l (int_array i32) column index)
  insert_field (int i64) m name column index =
      insert_value m name (λ v. ok (json_int v))
        (get_primitive_value l (int_array i64) column index)
  insert_field (int u8) m name column index =
      insert_value m name (λ v. ok (json_int v)) (get_uint_value l u8 column index)
  insert_field (int u16) m name column index =
      insert_value m name (λ v. ok (json_int v)) (get_uint_value l u16 column index)
  insert_field (int u32) m name column index =
      insert_value m name (λ v. ok (json_int v)) (get_uint_value l u32 column index)
  insert_field (int u64) m name column index =
      insert_value m name (λ v. ok (json_int v)) (get_uint_value l u64 column index)
  insert_field (float f16) m name column index =
      insert_value m name (λ v. finite (debug_f16 v) (f32_as_f64 (f16_to_f32 v)))
        (get_primitive_value l (float_array f16) column index)
  insert_field (float f32) m name column index =
      insert_value m name (λ v. finite (debug_f32 v) (f32_as_f64 v))
        (get_primitive_value l (float_array f32) column index)
  insert_field (float f64) m name column index =
      insert_value m name (λ v. finite (debug_f64 v) v)
        (get_primitive_value l (float_array f64) column index)
  insert_field (decimal128 p s) m name column index =
      insert_value m name (λ v. finite (debug_f64 v) v)
        (get_decimal_value l f64_from_numeric column index p s)
  insert_field utf8 m name column index =
      insert_value m name (λ v. ok (json_string v))
        (get_primitive_value l string_array column index)
  insert_field t m name column index = err (
      error (
        concat
          (str "Structs with " ∷ debug_type t ∷ str " field types are not yet supported" ∷ [])))

  abbrev insert_found :
      StructView Array → JsonMap → Text → ℕ → Option (ℕ × DataType) → Result JsonMap
  insert_found view m name index none = ok m
  insert_found view m name index (some (column_index, t)) =
      view.column column_index >>= λ column. insert_field t m name column index

  -- `for column_name in column_names`
  unfoldable pub insert_columns : StructView Array → ℕ → List Text → JsonMap → Result JsonMap
  insert_columns view index [] m = ok m
  insert_columns view index (name ∷ names) m =
      insert_found view m name index (view.find name) >>= λ inserted.
      insert_columns view index names inserted

  -- `get_struct_value`
  unfoldable pub get_struct_value : Array → ℕ → Result (Option Json)
  get_struct_value array index = ok_or (as_struct array) (panic (str "struct array")) >>= λ view.
      if view.nulls_is_some && view.is_null index
      then ok none
      else insert_columns view index view.column_names new_map >>= λ m. ok (some (json_object m))

  -- `map_or(Value::Null, f)` of a value, and `map_or(vec![], …)` of a row
  abbrev or_null : {A : Type 0} → (A → Json) → Option A → Json
  or_null f none = json_null
  or_null f (some v) = f v

  abbrev row_json : {A : Type 0} → (A → Json) → Option (List (Option A)) → List Json
  row_json f none = []
  row_json f (some row) = map (or_null f) row

  abbrev primitive_list :
      {A : Type 0} → (A → Json) → Result (Option (List (Option A))) → Result (Option Json)
  primitive_list f read = read >>= λ row. ok (some (json_array (row_json f row)))

  -- `for i in 0..count`, from `i` on.
  unfoldable pub collect : (ℕ → Result Json) → ℕ → ℕ → Result (List Json)
  collect f zero i = ok []
  collect f (suc count) i = f i >>= λ json. collect f count (suc i) >>= λ rest. ok (json ∷ rest)

  abbrev pub value_or_null : (Array → ℕ → Result (Option Json)) → Array → ℕ → Result Json
  value_or_null get array i = get array i >>= λ v. ok (or_null (λ json. json) v)

  -- The values of a row that is itself an array, each read by `get`.
  abbrev pub nested_list :
      (Array → ℕ → Result (Option Json)) → ListView Array → ℕ → Result (Option Json)
  nested_list get view index = view.value index >>= λ row.
      collect (value_or_null get row) (len row) 0 >>= λ values. ok (some (json_array values))

  -- The match of `get_list_value` on the type of the values; `get` is its recursive call.
  unfoldable pub list_of :
      (Array → ℕ → Result (Option Json))
      → DataType
      → ListView Array
      → Array
      → ℕ
      → Result (Option Json)
  list_of get boolean view array index =
      primitive_list json_bool (get_primitive_list_value l boolean_array array index)
  list_of get (int i8) view array index =
      primitive_list json_int (get_primitive_list_value l (int_array i8) array index)
  list_of get (int i16) view array index =
      primitive_list json_int (get_primitive_list_value l (int_array i16) array index)
  list_of get (int i32) view array index =
      primitive_list json_int (get_primitive_list_value l (int_array i32) array index)
  list_of get (int i64) view array index =
      primitive_list json_int (get_primitive_list_value l (int_array i64) array index)
  list_of get utf8 view array index =
      primitive_list json_string (get_string_list_value l array index)
  list_of get large_utf8 view array index =
      collect
        (λ i. get_primitive_value l large_string_array array i >>= λ v. ok (or_null json_string v))
        (len array) 0
      >>= λ values. ok (some (json_array values))
  list_of get (struct fields) view array index = nested_list get_struct_value view index
  list_of get (list t) view array index = nested_list get view index
  list_of get t view array index =
      err
        (error (concat (str "List with " ∷ debug_type t ∷ str " types are not yet supported" ∷ [])))

  -- The body of `get_list_value`, given its recursive call.
  unfoldable pub list_body : (Array → ℕ → Result (Option Json)) → Array → ℕ → Result (Option Json)
  list_body get array index = as_list_array l array >>= λ view.
      if view.nulls_is_some && view.is_null index
      then ok none
      else list_of get view.value_type view array index

  -- The recursion, on fuel, with what comes out when the fuel has run out.
  unfoldable pub list_fueled : Result (Option Json) → ℕ → Array → ℕ → Result (Option Json)
  list_fueled out zero array index = out
  list_fueled out (suc fuel) array index = list_body (list_fueled out fuel) array index

  -- How deep the lists of a type are nested.
  unfoldable pub list_depth : DataType → ℕ
  list_depth (list t) = suc (list_depth t)
  list_depth t = 0

  -- `get_list_value`, with one more fuel than lists are nested.
  unfoldable pub get_list_value : Array → ℕ → Result (Option Json)
  get_list_value array index =
      list_fueled (err (panic (str "out of fuel"))) (suc (list_depth (data_type array))) array index

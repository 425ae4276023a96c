-- ===== src/Schema/Cell/Failures.antt =====
-- Columns that src/schema/cell.rs lists and that it cannot read.
use pg_analytics.Prelude.{ℕ, suc, arith, false, ◌&&◌, some, ◌≡◌, refl, [], ◌∷◌}
use pg_analytics.Text.{Text, str, concat}
use pg_analytics.Result.{Failure, err, error, panic}
use pg_analytics.Schema.Cell.Types.{
  int2_oid, jsonb_oid, i64, u8, int, list, large_utf8, int_array, large_string_array,
}
use pg_analytics.Schema.Cell.Libraries.{Libraries, ArrowLaws, ListView}
use pg_analytics.Schema.Cell.Values.{get_primitive_value, get_uint_value}
use pg_analytics.Schema.Cell.Nested.{get_list_value, list_fueled, list_body, list_of, collect}
use pg_analytics.Schema.Cell.Numbers.{get_int2}
use pg_analytics.Schema.Cell.Documents.{get_jsonb}
use pg_analytics.Schema.Cell.Get.{get_cell, get_cell_of}

module _ (l : Libraries) where
  open l use {Array, data_type, type_of_oid, downcast_ref, as_list, len, type_name}

  -- An `INT2` column over an array of 64-bit integers panics on every row, null or not: the array is
  -- taken for one of unsigned 8-bit integers.
  pub get_cell-i64_as_int2 :
      (laws : ArrowLaws l) (array : Array) (index oid : ℕ) (name : Text)
      → type_of_oid oid ≡ int2_oid
      → data_type array ≡ int i64
      → get_cell l array index oid name ≡ err (panic (str "primitive array"))
  unfolding get_cell get_cell_of get_int2 get_uint_value
  get_cell-i64_as_int2 laws array index oid name oid_is type_is =
      let no_view = laws.downcast_none (int_array u8) array (rw type_is λ e. ground arith) in
      rw (oid_is, type_is, no_view) refl

  -- The error of a list array that is taken for an array of texts.
  abbrev pub not_a_text_array : Failure
  not_a_text_array =
      error (concat (str "failed to downcast primitive array " ∷ type_name large_string_array ∷ []))

  -- A `JSONB` column over lists of large texts is refused on every row that is not null, if there is
  -- any: the list array itself, and not its row, is taken for the array of the texts.
  pub get_cell-large_utf8_list :
      (laws : ArrowLaws l) (array : Array) (view : ListView Array) (index oid rows : ℕ)
      (name : Text)
      → type_of_oid oid ≡ jsonb_oid
      → data_type array ≡ list large_utf8
      → as_list array ≡ some view
      → (view.nulls_is_some && view.is_null index) ≡ false
      → len array ≡ suc rows
      → get_cell l array index oid name ≡ err not_a_text_array
  unfolding get_cell get_cell_of get_jsonb get_list_value list_fueled list_body list_of collect
      get_primitive_value
  get_cell-large_utf8_list laws array view index oid rows name oid_is type_is is_list not_null
        some_rows =
      let no_view = laws.downcast_none large_string_array array (rw type_is λ e. ground arith) in
      let listed = laws.list_type array view is_list in
      let values : view.value_type ≡ large_utf8 = ground (arith, listed, type_is) in
      rw (oid_is, type_is, is_list, not_null, values, some_rows, no_view) refl

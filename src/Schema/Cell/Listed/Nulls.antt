-- ===== src/Schema/Cell/Listed/Nulls.antt =====
-- A null of a listed type is read as nothing.
use pg_analytics.Prelude.{ℕ, Bool, true, false, ◌&&◌, Option, none, some}
use pg_analytics.Schema.Cell.Types.{DataType, ArrayType, null, list, struct, array_type}
use pg_analytics.Schema.Cell.Libraries.{Libraries, View, ListView, StructView}

abbrev null_in : {A : Type 0} → Option (View A) → ℕ → Bool
null_in none index = false
null_in (some view) index = view.nulls_is_some && view.is_null index

abbrev null_in_list : {A : Type 0} → Option (ListView A) → ℕ → Bool
null_in_list none index = false
null_in_list (some view) index = view.nulls_is_some && view.is_null index

abbrev null_in_struct : {A : Type 0} → Option (StructView A) → ℕ → Bool
null_in_struct none index = false
null_in_struct (some view) index = view.nulls_is_some && view.is_null index

module _ (l : Libraries) where
  open l use {Array, downcast_ref, as_list, as_struct, data_type, type_of_oid}

  abbrev null_of : Option ArrayType → Array → ℕ → Bool
  null_of none array index = false
  null_of (some a) array index = null_in (downcast_ref a array) index

  -- An array of type `t` has a null at `index`.
  abbrev pub null_at : DataType → Array → ℕ → Bool
  null_at null array index = true
  null_at (list t) array index = null_in_list (as_list array) index
  null_at (struct fields) array index = null_in_struct (as_struct array) index
  null_at t array index = null_of (array_type t) array index

-- ===== src/Schema/Cell/Holds.antt =====
-- What an array holds at an index, and what the helpers of src/schema/cell.rs read there.
use pg_analytics.Prelude.{ℕ, true, false, ◌&&◌, some, ◌≡◌, refl}
use pg_analytics.Result.{Result, ok, err, ◌>>=◌}
use pg_analytics.Schema.Cell.Types.{ArrayType, int_array, IntType}
use pg_analytics.Schema.Cell.Libraries.{Libraries, View}
use pg_analytics.Schema.Cell.Values.{ItemOf, get_primitive_value, get_uint_value}
use pg_analytics.Schema.Cell.Cells.{Cell, to_cell}

module _ (l : Libraries) where
  open l use {Array, downcast_ref}

  -- The array is one of type `a`, with the value `v` at `index`.
  abbrev pub Holds : (a : ArrayType) → Array → ℕ → ItemOf l a → Type 0
  Holds a array index v =
      (view : View (ItemOf l a)) × (downcast_ref a array ≡ some view)
      × ((view.nulls_is_some && view.is_null index) ≡ false)
      × (view.value index ≡ ok v)

  -- The array is one of type `a`, with a null at `index`.
  abbrev pub HoldsNull : ArrayType → Array → ℕ → Type 0
  HoldsNull a array index =
      (view : View (ItemOf l a)) × (downcast_ref a array ≡ some view)
      × ((view.nulls_is_some && view.is_null index) ≡ true)

  pub get_primitive_value_of_Holds :
      (a : ArrayType) (array : Array) (index : ℕ) (v : ItemOf l a)
      → Holds a array index v
      → get_primitive_value l a array index ≡ ok (some v)
  unfolding get_primitive_value
  get_primitive_value_of_Holds a array index v (view, down, not_null, value) =
      rw (down, not_null, value)

  pub get_uint_value_of_Holds :
      (k : IntType) (array : Array) (index : ℕ) (v : ItemOf l (int_array k))
      → Holds (int_array k) array index v
      → get_uint_value l k array index ≡ ok (some v)
  unfolding get_uint_value
  get_uint_value_of_Holds k array index v (view, down, not_null, value) = rw (down, not_null, value)

  -- The cell of a value that a fallible step makes.
  pub to_cell-some :
      {A : Type 0} (f : A → Cell l) (r : Result A)
      → to_cell l f (r >>= λ v. ok (some v)) ≡ (r >>= λ v. ok (some (f v)))
  to_cell-some f (ok v) = refl
  to_cell-some f (err e) = refl

-- ===== src/Datafusion/Cell/Refined.antt =====
-- The reading of cells of src/schema/cell.rs agrees with the earlier one of
-- src/datafusion/src/schema/cell.rs wherever that one gave a cell.
pub mod Branches
pub mod Floats
pub mod Temporal
pub mod Cells
use pg_analytics.Prelude.{
  ℕ, arith, Bool, true, false, ◌&&◌, ◌≡◌, ◌≢◌, refl, sym, ap, ◌∙◌, Option, some, none, List, inl,
  inr, Bool-cases, Option-cases, if◌then◌else◌,
}
use pg_analytics.Text.{Text}
use pg_analytics.Result.{Result, ok, err, ok_or, Result-cases, ◌>>=◌}
use pg_analytics.Schema.Integers.{ℤ, pos, negsuc, cast, half_i64}
use pg_analytics.Schema.Cell.Types.{ArrayType, IntType, int_array, u8, u16, u32, u64, i8}
use pg_analytics.Schema.Cell.Libraries.{Libraries, View}
use pg_analytics.Schema.Cell.Values.{
  ItemOf, get_primitive_value, get_uint_value, get_decimal_value, get_binary_value, get_date_value,
  get_time_value, get_timestamp_value, get_timestamptz_value,
}
use pg_analytics.Datafusion.Cell.Values.{
  LakeLibraries, lake_primitive_value, lake_uint_value, lake_decimal_value, lake_binary_value,
  lake_date_value, lake_time_value, lake_timestamp_value, lake_timestamptz_value, i64_try_from,
}
use pg_analytics.Schema.Integers.Casts.{cast_of_InRange}

module _ (l : Libraries) (k : LakeLibraries) where
  open l use {
    Array, downcast_ref, AnyNumeric, PgDate, PgTime, PgTimestamp, PgTimestamptz, text_of_bytes,
  }

  -- What gave a value gives the same one.
  abbrev pub Refines : {A : Type 0} → Result A → Result A → Type 0
  Refines {A = A} earlier later = (a : A) → earlier ≡ ok a → later ≡ ok a

  pub primitive_Refines :
      (a : ArrayType) (array : Array) (index : ℕ)
      → Refines (lake_primitive_value l k a array index) (get_primitive_value l a array index)
  unfolding lake_primitive_value get_primitive_value
  primitive_Refines a array index v h = elim (Option-cases (downcast_ref a array)) [
    | inl e ↦ ground (arith, h, e)
    | inr (view, e) ↦ ground (arith, h, e)
  ]

  pub decimal_Refines :
      {N : Type 0} (try_from : AnyNumeric → Result N) (array : Array) (index p : ℕ) (s : ℤ)
      → Refines
          (lake_decimal_value l k try_from array index p s)
          (get_decimal_value l try_from array index p s)
  unfolding lake_decimal_value get_decimal_value
  decimal_Refines try_from array index p s v h = ground (arith, h)

  pub date_Refines :
      (a : ArrayType) (f : ItemOf l a → ℤ) (array : Array) (index : ℕ)
      → Refines (lake_date_value l k a f array index) (get_date_value l a f array index)
  unfolding lake_date_value get_date_value
  date_Refines a f array index v h = ground (arith, h)

  pub time_Refines :
      (a : ArrayType) (f : ItemOf l a → ℤ) (array : Array) (index : ℕ)
      → Refines (lake_time_value l k a f array index) (get_time_value l a f array index)
  unfolding lake_time_value get_time_value
  time_Refines a f array index v h = ground (arith, h)

  pub timestamp_Refines :
      (a : ArrayType) (f : ItemOf l a → ℤ) (array : Array) (index : ℕ)
      → Refines (lake_timestamp_value l k a f array index) (get_timestamp_value l a f array index)
  unfolding lake_timestamp_value get_timestamp_value
  timestamp_Refines a f array index v h = ground (arith, h)

  pub timestamptz_Refines :
      (a : ArrayType) (f : ItemOf l a → ℤ) (array : Array) (index : ℕ) (tz : Option Text)
      → Refines
          (lake_timestamptz_value l k a f array index tz)
          (get_timestamptz_value l a f array index tz)
  unfolding lake_timestamptz_value get_timestamptz_value
  timestamptz_Refines a f array index none v h = ground (arith, h)
  timestamptz_Refines a f array index (some tz) v h = ground (arith, h)

  -- An array without a null buffer has no nulls.
  abbrev pub NullLaw : Type 0
  NullLaw =
      (a : ArrayType) (array : Array) (view : View (ItemOf l a)) (index : ℕ)
      → downcast_ref a array ≡ some view
      → view.is_null index ≡ true
      → view.nulls_is_some ≡ true

  -- Bytes that are UTF-8 are their text without the check, too.
  abbrev pub Utf8Law : Type 0
  Utf8Law =
      (bytes : List ℕ) (text : Text) → k.from_utf8 bytes ≡ ok text → text_of_bytes bytes ≡ text

  pub uint_Refines :
      (law : NullLaw) (t : IntType) (array : Array) (index : ℕ)
      → Refines (lake_uint_value l k t array index) (get_uint_value l t array index)
  unfolding lake_uint_value get_uint_value i64_try_from
  uint_Refines law t array index v h = elim (Option-cases (downcast_ref (int_array t) array)) [
    | inl e ↦ ground (arith, h, e)
    | inr (view, e) ↦ ground (arith, h, e, law (int_array t) array view index e)
  ]

  pub uint_InRange :
      (t : IntType) (array : Array) (index : ℕ) (v : ℤ)
      → lake_uint_value l k t array index ≡ ok (some v)
      → cast half_i64 v ≡ v
  unfolding lake_uint_value i64_try_from
  uint_InRange t array index v h = ground (arith, h, cast_of_InRange half_i64 v)

  pub binary_Refines :
      (law : Utf8Law) (a : ArrayType) (f : ItemOf l a → List ℕ) (array : Array) (index : ℕ)
      → Refines (lake_binary_value l k a f array index) (get_binary_value l a f array index)
  unfolding lake_binary_value get_binary_value
  binary_Refines law a f array index v h = elim (Option-cases (downcast_ref a array)) [
    | inl e ↦ ground (arith, h, e)
    | inr (view, e) ↦ elim (Result-cases (view.value index)) [
      | inl (b, eb) ↦ elim (Result-cases (k.from_utf8 (f b))) [
        | inl (text, et) ↦ ground (arith, h, e, eb, et, law (f b) text et)
        | inr (failure, et) ↦ ground (arith, h, e, eb, et)
      ]
      | inr (failure, eb) ↦ ground (arith, h, e, eb)
    ]
  ]

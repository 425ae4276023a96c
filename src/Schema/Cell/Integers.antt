-- ===== src/Schema/Cell/Integers.antt =====
-- The integer columns of src/schema/cell.rs: which integer of the column's type is read.
use pg_analytics.Prelude.{ℕ, ◌<◌, arith, Option, some, ◌≡◌, ap, ◌∙◌, true}
use pg_analytics.Text.{Text}
use pg_analytics.Result.{Result, ok}
use pg_analytics.Schema.Integers.{ℤ, pos, negsuc, cast, InRange, half_i16, half_i32, half_i64}
use pg_analytics.Schema.Integers.Casts.{cast_of_InRange, cast-InRange, cast-Congruent, Congruent}
use pg_analytics.Schema.Cell.Types.{
  PgType, int2_oid, int4_oid, int8_oid, IntType, i8, i16, i32, i64, u8, u16, u32, u64, int,
  int_array,
}
use pg_analytics.Schema.Cell.Libraries.{Libraries}
use pg_analytics.Schema.Cell.Values.{get_primitive_value, get_uint_value}
use pg_analytics.Schema.Cell.Cells.{Cell, i16_cell, i32_cell, i64_cell}
use pg_analytics.Schema.Cell.Numbers.{get_int4, get_int2, get_int8}
use pg_analytics.Schema.Cell.Holds.{Holds, get_primitive_value_of_Holds, get_uint_value_of_Holds}
use pg_analytics.Schema.Cell.Get.{get_cell, get_cell_of}
use pg_analytics.Schema.Cell.Listed.{readable}
use Prim.Native.Nat.{◌*◌}

-- The integer types of Postgres.
pub data PgInt : Type 0 where
  int2 : PgInt
  int4 : PgInt
  int8 : PgInt

abbrev pub oid_of : PgInt → PgType
oid_of int2 = int2_oid
oid_of int4 = int4_oid
oid_of int8 = int8_oid

abbrev pub half_of : PgInt → ℕ
half_of int2 = half_i16
half_of int4 = half_i32
half_of int8 = half_i64

abbrev Unsigned : ℕ → ℤ → Type 0
Unsigned bound (pos n) = n < bound
Unsigned bound (negsuc n) = ⊥

-- The values of the integer types of Arrow.
abbrev pub OfType : IntType → ℤ → Type 0
OfType i8 v = InRange 0x80 v
OfType i16 v = InRange half_i16 v
OfType i32 v = InRange half_i32 v
OfType i64 v = InRange half_i64 v
OfType u8 v = Unsigned 0x100 v
OfType u16 v = Unsigned 0x10000 v
OfType u32 v = Unsigned 0x100000000 v
OfType u64 v = Unsigned 0x10000000000000000 v

module _ (l : Libraries) where
  open l use {Array, data_type, type_of_oid}

  abbrev pub cell_of : PgInt → ℤ → Cell l
  cell_of int2 v = i16_cell v
  cell_of int4 v = i32_cell v
  cell_of int8 v = i64_cell v

  -- The helper that reads an integer of type `k`.
  abbrev read_int : IntType → Array → ℕ → Result (Option ℤ)
  read_int i8 array index = get_primitive_value l (int_array i8) array index
  read_int i16 array index = get_primitive_value l (int_array i16) array index
  read_int i32 array index = get_primitive_value l (int_array i32) array index
  read_int i64 array index = get_primitive_value l (int_array i64) array index
  read_int k array index = get_uint_value l k array index

  read_int_of_Holds :
      (k : IntType) (array : Array) (index : ℕ) (v : ℤ)
      → Holds l (int_array k) array index v
      → read_int k array index ≡ ok (some v)
  read_int_of_Holds i8 array index v h =
      get_primitive_value_of_Holds l (int_array i8) array index v h
  read_int_of_Holds i16 array index v h =
      get_primitive_value_of_Holds l (int_array i16) array index v h
  read_int_of_Holds i32 array index v h =
      get_primitive_value_of_Holds l (int_array i32) array index v h
  read_int_of_Holds i64 array index v h =
      get_primitive_value_of_Holds l (int_array i64) array index v h
  read_int_of_Holds u8 array index v h = get_uint_value_of_Holds l u8 array index v h
  read_int_of_Holds u16 array index v h = get_uint_value_of_Holds l u16 array index v h
  read_int_of_Holds u32 array index v h = get_uint_value_of_Holds l u32 array index v h
  read_int_of_Holds u64 array index v h = get_uint_value_of_Holds l u64 array index v h

  int4-value :
      (k : IntType) (array : Array) (index oid : ℕ) (name : Text) (v : ℤ)
      → OfType k v
      → read_int k array index ≡ ok (some v)
      → get_int4 l (int k) array index oid name ≡ ok (some (i32_cell (cast half_i32 v)))
  unfolding get_int4
  int4-value k array index oid name v t r = ground (arith, cast_of_InRange half_i32 v)

  int8-value :
      (k : IntType) (array : Array) (index oid : ℕ) (name : Text) (v : ℤ)
      → OfType k v
      → read_int k array index ≡ ok (some v)
      → get_int8 l (int k) array index oid name ≡ ok (some (i64_cell (cast half_i64 v)))
  unfolding get_int8
  int8-value k array index oid name v t r = ground (arith, cast_of_InRange half_i64 v)

  int2-value :
      (k : IntType) (array : Array) (index oid : ℕ) (name : Text) (v : ℤ)
      → OfType k v
      → readable int2_oid (int k) ≡ true
      → read_int k array index ≡ ok (some v)
      → get_int2 l (int k) array index oid name ≡ ok (some (i16_cell (cast half_i16 v)))
  unfolding get_int2
  int2-value k array index oid name v t read r = ground (arith, cast_of_InRange half_i16 v)

  get_cell-cast :
      (p : PgInt) (k : IntType) (array : Array) (index oid : ℕ) (name : Text) (v : ℤ)
      → type_of_oid oid ≡ oid_of p
      → data_type array ≡ int k
      → readable (oid_of p) (int k) ≡ true
      → OfType k v
      → Holds l (int_array k) array index v
      → get_cell l array index oid name ≡ ok (some (cell_of p (cast (half_of p) v)))
  unfolding get_cell get_cell_of
  get_cell-cast int2 k array index oid name v oid_is is_int read t held =
      rw (oid_is, is_int)
        (int2-value k array index oid name v t read (read_int_of_Holds k array index v held))
  get_cell-cast int4 k array index oid name v oid_is is_int read t held =
      rw (oid_is, is_int)
        (int4-value k array index oid name v t (read_int_of_Holds k array index v held))
  get_cell-cast int8 k array index oid name v oid_is is_int read t held =
      rw (oid_is, is_int)
        (int8-value k array index oid name v t (read_int_of_Holds k array index v held))

  positive : (p : PgInt) → 0 < half_of p
  positive p = ground arith

  -- A column of type `INT2`, `INT4` or `INT8` over an array of integers of any width and sign (64-bit
  -- integers for `INT2` apart) reads a value that is not null as an integer of the column's type
  -- that is equal to it modulo 2 ^ w, w the width of the column's type.
  pub get_cell-Congruent :
      (p : PgInt) (k : IntType) (array : Array) (index oid : ℕ) (name : Text) (v : ℤ)
      → type_of_oid oid ≡ oid_of p
      → data_type array ≡ int k
      → readable (oid_of p) (int k) ≡ true
      → OfType k v
      → Holds l (int_array k) array index v
      → (w : ℤ) × (get_cell l array index oid name ≡ ok (some (cell_of p w)))
        × InRange (half_of p) w
        × Congruent (2 * half_of p) v w
  get_cell-Congruent p k array index oid name v oid_is is_int read t held = (
    cast (half_of p) v,
    get_cell-cast p k array index oid name v oid_is is_int read t held,
    cast-InRange (half_of p) v (positive p),
    cast-Congruent (half_of p) v (positive p),
  )

  -- There is no overflow where the value is one of the column's type: it is read as it is.
  pub get_cell-exact :
      (p : PgInt) (k : IntType) (array : Array) (index oid : ℕ) (name : Text) (v : ℤ)
      → type_of_oid oid ≡ oid_of p
      → data_type array ≡ int k
      → readable (oid_of p) (int k) ≡ true
      → OfType k v
      → InRange (half_of p) v
      → Holds l (int_array k) array index v
      → get_cell l array index oid name ≡ ok (some (cell_of p v))
  get_cell-exact p k array index oid name v oid_is is_int read t fits held =
      get_cell-cast p k array index oid name v oid_is is_int read t held
      ∙ ap (λ w. ok (some (cell_of p w))) (cast_of_InRange (half_of p) v fits)

-- ===== src/Schema/Cell/Cells.antt =====
-- `Cell` of supabase-wrappers, as far as src/schema/cell.rs builds it, and its `DataTypeError`.
use pg_analytics.Prelude.{ℕ, Bool, Option, none, some, List, [], ◌∷◌}
use pg_analytics.Text.{Text, str, concat}
use pg_analytics.Result.{Result, ok, err, Failure, error, ◌>>=◌}
use pg_analytics.Schema.Integers.{ℤ}
use pg_analytics.Schema.Cell.Types.{DataType}
use pg_analytics.Schema.Cell.Libraries.{Libraries}

module _ (l : Libraries) where
  open l use {
    F32, F64, data_type, debug_type, debug_oid, AnyNumeric, PgDate, PgTime, PgTimestamp,
    PgTimestamptz, PgInterval, PgUuid, Json,
  }

  pub data Cell : Type 0 where
    bool_cell : Bool → Cell
    i16_cell : ℤ → Cell
    i32_cell : ℤ → Cell
    i64_cell : ℤ → Cell
    f32_cell : F32 → Cell
    f64_cell : F64 → Cell
    numeric_cell : AnyNumeric → Cell
    string_cell : Text → Cell
    bytea_cell : List ℕ → Cell
    date_cell : PgDate → Cell
    time_cell : PgTime → Cell
    timestamp_cell : PgTimestamp → Cell
    timestamptz_cell : PgTimestamptz → Cell
    interval_cell : PgInterval → Cell
    json_cell : Json → Cell
    jsonb_cell : Json → Cell
    uuid_cell : PgUuid → Cell
    bool_array_cell : List (Option Bool) → Cell
    string_array_cell : List (Option Text) → Cell
    i16_array_cell : List (Option ℤ) → Cell
    i32_array_cell : List (Option ℤ) → Cell
    i64_array_cell : List (Option ℤ) → Cell
    f32_array_cell : List (Option F32) → Cell
    f64_array_cell : List (Option F64) → Cell

  -- `match self.get_…_value(index)? { Some(value) => Ok(Some(…)), None => Ok(None) }`, where what is
  -- made of the value may fail.
  abbrev made : {A : Type 0} → (A → Result Cell) → Option A → Result (Option Cell)
  made f none = ok none
  made f (some value) = f value >>= λ cell. ok (some cell)

  abbrev pub try_cell : {A : Type 0} → (A → Result Cell) → Result (Option A) → Result (Option Cell)
  try_cell f read = read >>= made f

  abbrev pub to_cell : {A : Type 0} → (A → Cell) → Result (Option A) → Result (Option Cell)
  to_cell f = try_cell λ value. ok (f value)

  -- `DataTypeError::DataTypeMismatch`, with its `Display`
  unfoldable pub data_type_mismatch : Text → DataType → ℕ → Failure
  data_type_mismatch name data_type oid = error (
      concat (
        str "Column "
        ∷ name
        ∷ str " has Arrow data type "
        ∷ debug_type data_type
        ∷ str " but is mapped to the "
        ∷ debug_oid oid
        ∷ str " type in Postgres, which are incompatible."
        ∷ []))

  abbrev pub mismatch : Text → DataType → ℕ → Result (Option Cell)
  mismatch name data_type oid = err (data_type_mismatch name data_type oid)

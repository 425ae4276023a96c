-- ===== src/Schema/Cell/Intervals.antt =====
-- The interval columns of src/schema/cell.rs: the microseconds of the interval that is read.
use Prim.Native.Nat.{◌*◌}
use pg_analytics.Prelude.{ℕ, suc, ◌<◌, ◌≤◌, arith, Option, some, ◌≡◌, ◌↔◌, refl}
use pg_analytics.Text.{Text}
use pg_analytics.Result.{Result, ok, ◌>>=◌}
use pg_analytics.Schema.Integers.{ℤ, pos, negsuc, cast, times, divided, InRange, half_i32}
use pg_analytics.Schema.Integers.Casts.{cast-InRange, cast_of_InRange, pos_part, neg_part}
use pg_analytics.Schema.Cell.Types.{
  interval_oid, interval, interval_array, day_time, month_day_nano,
}
use pg_analytics.Schema.Cell.Libraries.{Libraries}
use pg_analytics.Schema.Cell.Values.{get_interval_day_time_value, get_interval_month_day_nano_value}
use pg_analytics.Schema.Cell.Cells.{Cell, interval_cell}
use pg_analytics.Schema.Cell.Temporal.{get_interval}
use pg_analytics.Schema.Cell.Get.{get_cell, get_cell_of}
use pg_analytics.Schema.Cell.Holds.{Holds, to_cell-some}

-- The size of an integer.
abbrev pub magnitude : ℤ → ℕ
magnitude (pos n) = n
magnitude (negsuc n) = suc n

-- The quotient `q` of `z` by `k` is rounded towards zero.
abbrev pub IsTruncated : ℕ → ℤ → ℤ → Type 0
IsTruncated k (pos n) q = (neg_part q ≡ 0) × (k * magnitude q ≤ n) × (n < k * suc (magnitude q))
IsTruncated k (negsuc n) q =
    (pos_part q ≡ 0) × (k * magnitude q ≤ suc n) × (suc n < k * suc (magnitude q))

times-InRange : (z : ℤ) → InRange half_i32 (times 1000 z) ↔ (magnitude z ≤ 2147483)
times-InRange (pos n) = (λ h. omega arith, λ h. omega arith)
times-InRange (negsuc n) = (λ h. omega arith, λ h. omega arith)

divided-IsTruncated : (z : ℤ) → IsTruncated 1000 z (divided 1000 z)
divided-IsTruncated (pos n) = (refl, ground arith, ground arith)
divided-IsTruncated (negsuc n) = (ground arith, ground arith, ground arith)

module _ (l : Libraries) where
  open l use {Array, data_type, type_of_oid, interval_new}

  -- What `get_cell` makes of an interval: the cell, or the error of `datum::Interval::new`.
  abbrev pub interval_of : ℤ → ℤ → ℤ → Result (Option (Cell l))
  interval_of months days micros =
      interval_new months days micros >>= λ v. ok (some (interval_cell v))

  day_time-cell :
      (array : Array) (index oid : ℕ) (name : Text) (days ms : ℤ)
      → Holds l (interval_array day_time) array index (days, ms)
      → get_interval l (interval day_time) array index oid name
        ≡ interval_of (pos 0) days (cast half_i32 (times 1000 ms))
  unfolding get_interval get_interval_day_time_value
  day_time-cell array index oid name days ms (view, down, not_null, value) =
      rw (down, not_null, value)
        (to_cell-some l interval_cell (interval_new (pos 0) days (cast half_i32 (times 1000 ms))))

  month_day_nano-cell :
      (array : Array) (index oid : ℕ) (name : Text) (months days nanos : ℤ)
      → Holds l (interval_array month_day_nano) array index (months, days, nanos)
      → get_interval l (interval month_day_nano) array index oid name
        ≡ interval_of months days (divided 1000 nanos)
  unfolding get_interval get_interval_month_day_nano_value
  month_day_nano-cell array index oid name months days nanos (view, down, not_null, value) =
      rw (down, not_null, value)
        (to_cell-some l interval_cell (interval_new months days (divided 1000 nanos)))

  -- An interval of days and milliseconds becomes one of no months, the same days and a number of
  -- microseconds, which is 1000 times the milliseconds exactly when these are at most 2147483 in
  -- size, about 35 minutes and 47 seconds: above that the product of `i32` overflows.
  pub get_cell-day_time :
      (array : Array) (index oid : ℕ) (name : Text) (days ms : ℤ)
      → type_of_oid oid ≡ interval_oid
      → data_type array ≡ interval day_time
      → Holds l (interval_array day_time) array index (days, ms)
      → (micros : ℤ) × (get_cell l array index oid name ≡ interval_of (pos 0) days micros)
        × ((micros ≡ times 1000 ms) ↔ (magnitude ms ≤ 2147483))
  unfolding get_cell get_cell_of
  get_cell-day_time array index oid name days ms oid_is type_is held = (
    cast half_i32 (times 1000 ms),
    rw (oid_is, type_is) (day_time-cell array index oid name days ms held),
    (
      λ e. (times-InRange ms).0 (rw e at (cast-InRange half_i32 (times 1000 ms) (omega arith))),
      λ h. cast_of_InRange half_i32 (times 1000 ms) ((times-InRange ms).1 h),
    ),
  )

  -- An interval of months, days and nanoseconds keeps its months and days, and its nanoseconds are
  -- divided by 1000, rounded towards zero.
  pub get_cell-month_day_nano :
      (array : Array) (index oid : ℕ) (name : Text) (months days nanos : ℤ)
      → type_of_oid oid ≡ interval_oid
      → data_type array ≡ interval month_day_nano
      → Holds l (interval_array month_day_nano) array index (months, days, nanos)
      → (micros : ℤ) × (get_cell l array index oid name ≡ interval_of months days micros)
        × IsTruncated 1000 nanos micros
  unfolding get_cell get_cell_of
  get_cell-month_day_nano array index oid name months days nanos oid_is type_is held = (
    divided 1000 nanos,
    rw (oid_is, type_is) (month_day_nano-cell array index oid name months days nanos held),
    divided-IsTruncated nanos,
  )

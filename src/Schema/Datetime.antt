-- ===== src/Schema/Datetime.antt =====
-- src/schema/datetime.rs: what the conversions hand to the constructors of pgrx. The seconds, an `f64`,
-- are the expression that the code computes, so that the rounding of `f64` and the one of the
-- constructors are left to them. A year, an `i32`, is passed through as it is.
pub mod Subsecond
use Prim.Native.Nat.{◌/◌, ◌%◌}
use pg_analytics.Prelude.{ℕ, ◌+◌}
use pg_analytics.Text.{Text}

abbrev pub nanoseconds_in_second : ℕ
nanoseconds_in_second = 1000000000

-- An expression on `f64` over conversions of `u32`, by `as f64` or `into`.
pub data F64Expr : Type 0 where
  from_u32 : ℕ → F64Expr
  add div : F64Expr → F64Expr → F64Expr

-- `as u8`
abbrev as_u8 : ℕ → ℕ
as_u8 n = n % 256

-- `TryFrom<Interval> for datum::Interval`: the whole seconds of chrono's `TimeDelta`, for its
-- `num_seconds` and the `from_seconds` of pgrx.
unfoldable pub interval_of :
    {TimeDelta Seconds Interval : Type 0}
    → (TimeDelta → Seconds)
    → (Seconds → Interval)
    → TimeDelta
    → Interval
interval_of num_seconds from_seconds timedelta = from_seconds (num_seconds timedelta)

module _ (Year : Type 0) where
  -- `NaiveDate`
  pub record Date : Type 0 where
    pub year : Year
    pub month : ℕ
    pub day : ℕ

  -- `NaiveTime`; from 10 ^ 9 nanoseconds on in a leap second.
  pub record Time : Type 0 where
    pub hour : ℕ
    pub minute : ℕ
    pub second : ℕ
    pub nanosecond : ℕ

  -- The arguments of `datum::Date::new` and `datum::Time::new`.
  pub record DateParts : Type 0 where
    pub year : Year
    pub month : ℕ
    pub day : ℕ

  pub record TimeParts : Type 0 where
    pub hour : ℕ
    pub minute : ℕ
    pub seconds : F64Expr

  -- `TryFrom<Date> for datum::Date`
  unfoldable pub date_of : Date → DateParts
  date_of date = record { year = date.year; month = as_u8 date.month; day = as_u8 date.day }

  -- `TryFrom<Time> for datum::Time`: the sum and the division are those of `f64`.
  unfoldable pub time_of : Time → TimeParts
  time_of time = record {
    hour = as_u8 time.hour;
    minute = as_u8 time.minute;
    seconds =
        add (from_u32 time.second)
          (div (from_u32 time.nanosecond) (from_u32 nanoseconds_in_second));
  }

  -- `TryFrom<DateTimeNoTz>` for `datum::Timestamp` and `datum::TimestampWithTimeZone`: the division
  -- is the one of `u32`.
  unfoldable pub timestamp_of : Date × Time → DateParts × TimeParts
  unfolding date_of
  timestamp_of (date, time) = (
    date_of date,
    record {
      hour = as_u8 time.hour;
      minute = as_u8 time.minute;
      seconds = from_u32 (time.second + time.nanosecond / nanoseconds_in_second);
    },
  )

  -- `TryFrom<DateTimeTz<Tz>> for datum::TimestampWithTimeZone`
  unfoldable pub timestamp_with_timezone_of : Date × Time × Text → DateParts × TimeParts × Text
  unfolding timestamp_of
  timestamp_with_timezone_of (date, time, tz) = let (d, t) = timestamp_of (date, time) in (d, t, tz)

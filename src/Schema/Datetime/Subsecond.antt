-- ===== src/Schema/Datetime/Subsecond.antt =====
-- src/schema/datetime.rs: fractions of a second, lost for timestamps.
use Prim.Native.Nat.{◌/◌}
use pg_analytics.Prelude.{ℕ, ◌<◌, ◌≡◌, refl, arith}
use pg_analytics.Text.{Text}
use pg_analytics.Schema.Datetime.{
  nanoseconds_in_second, Date, Time, timestamp_of, timestamp_with_timezone_of,
}

module _ (Year : Type 0) where
  -- A time within the bounds of the clock, outside a leap second.
  abbrev pub IsClock : Time Year → Type 0
  IsClock t =
      (t.hour < 24) × (t.minute < 60) × (t.second < 60) × (t.nanosecond < nanoseconds_in_second)

  -- A timestamp drops the fraction of the second: outside a leap second, timestamps of the same
  -- second are converted to the same one, with and without a time zone.
  pub timestamp_of_truncated :
      (date : Date Year) (time : Time Year) (tz : Text) (nanosecond : ℕ)
      → IsClock time
      → nanosecond < nanoseconds_in_second
      → (timestamp_of Year (date, record time { nanosecond = nanosecond })
          ≡ timestamp_of Year (date, time))
        × (timestamp_with_timezone_of Year (date, record time { nanosecond = nanosecond }, tz)
            ≡ timestamp_with_timezone_of Year (date, time, tz))
  unfolding timestamp_of timestamp_with_timezone_of
  timestamp_of_truncated date time tz n h b =
      let given : n / nanoseconds_in_second ≡ 0 = omega arith in
      let own : time.nanosecond / nanoseconds_in_second ≡ 0 = omega arith in
      (rw (given, own) refl, rw (given, own) refl)

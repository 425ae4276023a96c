-- ===== src/Tests/Dates.antt =====
-- src/schema/datetime.rs: a timestamp with a fraction of a second.
use pg_analytics.Prelude.{ℕ, ◌≡◌, arith}
use pg_analytics.Text.{str}
use pg_analytics.Schema.Datetime.{Date, Time, timestamp_of, timestamp_with_timezone_of}
use pg_analytics.Schema.Datetime.Subsecond.{timestamp_of_truncated}

abbrev noon : Time ℕ
noon = record { hour = 12; minute = 0; second = 30; nanosecond = 250000000 }

abbrev leap_day : Date ℕ
leap_day = record { year = 2024; month = 2; day = 29 }

timestamp_of_truncated_example :
    (timestamp_of ℕ (leap_day, record noon { nanosecond = 999999999 })
      ≡ timestamp_of ℕ (leap_day, noon))
    × (timestamp_with_timezone_of ℕ (leap_day, record noon { nanosecond = 999999999 }, str "UTC")
        ≡ timestamp_with_timezone_of ℕ (leap_day, noon, str "UTC"))
timestamp_of_truncated_example =
    timestamp_of_truncated ℕ leap_day noon (str "UTC") 999999999
      (omega arith, omega arith, omega arith, omega arith) (omega arith)

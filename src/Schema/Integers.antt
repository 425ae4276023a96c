-- ===== src/Schema/Integers.antt =====
-- The signed integers of Rust over the native numbers, and its casts between them (`as i16`,
-- `as i32`, `as i64`), which keep the value modulo 2 ^ w.
pub mod Casts
use Prim.Native.Nat.{◌*◌, ◌/◌, ◌%◌}
use pg_analytics.Prelude.{ℕ, zero, suc, ◌+◌, ◌-◌, ◌<◌, Bool, leb, ltb, if◌then◌else◌}

-- `negsuc n` is -(n + 1).
pub data ℤ : Type 0 where
  pos : ℕ → ℤ
  negsuc : ℕ → ℤ

-- `value as i{w}` for `half` = 2 ^ (w - 1).
unfoldable pub cast : ℕ → ℤ → ℤ
cast half (pos n) =
    let r = n % (2 * half) in if ltb r half then pos r else negsuc (2 * half - 1 - r)
cast half (negsuc n) =
    let r = n % (2 * half) in if ltb r half then negsuc r else pos (2 * half - 1 - r)

abbrev pub half_i16 : ℕ
half_i16 = 0x8000

abbrev pub half_i32 : ℕ
half_i32 = 0x80000000

abbrev pub half_i64 : ℕ
half_i64 = 0x8000000000000000

-- The value is one of a signed type of Rust: -half ≤ v < half.
abbrev pub InRange : ℕ → ℤ → Type 0
InRange half (pos n) = n < half
InRange half (negsuc n) = n < half

-- Multiplication by, and truncating division by, a positive constant.
abbrev pub times : ℕ → ℤ → ℤ
times zero z = pos 0
times (suc k) (pos n) = pos (n * suc k)
times (suc k) (negsuc n) = negsuc (suc n * suc k - 1)

abbrev pub divided : ℕ → ℤ → ℤ
divided k (pos n) = pos (n / k)
divided k (negsuc n) = if leb k (suc n) then negsuc (suc n / k - 1) else pos 0

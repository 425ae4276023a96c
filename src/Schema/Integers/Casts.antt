-- ===== src/Schema/Integers/Casts.antt =====
-- What a cast between the signed integers of Rust keeps.
use Prim.Native.Nat.{◌*◌, ◌/◌, ◌%◌}
use native.Mathlib.Nat.{mod-eq_of_lt, div-add-mod}
use pg_analytics.Prelude.{ℕ, zero, suc, ◌+◌, ◌<◌, ltb, ◌≡◌, ◌⊎◌, inl, inr, arith, Bool-cases}
use pg_analytics.Schema.Integers.{ℤ, pos, negsuc, cast, InRange}

-- The cast to a type gives a value of the type.
pub cast-InRange : (half : ℕ) (z : ℤ) → 0 < half → InRange half (cast half z)
unfolding cast
cast-InRange half (pos n) h = ground arith
cast-InRange half (negsuc n) h = ground arith

mod_small : (half n : ℕ) → n < half → n % (2 * half) ≡ n
mod_small half n h = mod-eq_of_lt (omega arith)

-- The cast leaves a value of the type as it is.
pub cast_of_InRange : (half : ℕ) (z : ℤ) → InRange half z → cast half z ≡ z
unfolding cast
cast_of_InRange half (pos n) h = ground (arith, mod_small half n h)
cast_of_InRange half (negsuc n) h = ground (arith, mod_small half n h)

abbrev pub pos_part : ℤ → ℕ
pos_part (pos n) = n
pos_part (negsuc n) = 0

abbrev pub neg_part : ℤ → ℕ
neg_part (pos n) = 0
neg_part (negsuc n) = suc n

-- `a` and `b` are equal modulo `m`.
abbrev pub Congruent : ℕ → ℤ → ℤ → Type 0
Congruent m a b =
    (k : ℕ) × ((pos_part a + neg_part b ≡ pos_part b + neg_part a + m * k)
      ⊎ (pos_part b + neg_part a ≡ pos_part a + neg_part b + m * k))

pub cast-Congruent : (half : ℕ) (z : ℤ) → 0 < half → Congruent (2 * half) z (cast half z)
unfolding cast
cast-Congruent half (pos n) h = elim (Bool-cases (ltb (n % (2 * half)) half)) [
  | inl e ↦ (n / (2 * half), inl (ground (arith, div-add-mod n (2 * half), e)))
  | inr e ↦ (suc (n / (2 * half)), inl (ground (arith, div-add-mod n (2 * half), e)))
]
cast-Congruent half (negsuc n) h = elim (Bool-cases (ltb (n % (2 * half)) half)) [
  | inl e ↦ (n / (2 * half), inr (ground (arith, div-add-mod n (2 * half), e)))
  | inr e ↦ (suc (n / (2 * half)), inr (ground (arith, div-add-mod n (2 * half), e)))
]

-- Two values of a type that are congruent are equal.
pub eq_of_Congruent :
    (half : ℕ) (a b : ℤ) → InRange half a → InRange half b → Congruent (2 * half) a b → a ≡ b
eq_of_Congruent half a b ha hb (zero, w) = ground arith
eq_of_Congruent half a b ha hb (suc k, w) = ground arith

-- ===== src/Result.antt =====
-- Fallible code: `anyhow::Result`, and the panics of `expect`, `unwrap` and `panic!`.
use pg_analytics.Prelude.{◌≡◌, refl, ◌⊎◌, inl, inr, Option, none, some}
use pg_analytics.Text.{Text}

-- An `Err` value carries its message; a panic leaves every caller, and never comes back as a value.
pub data Failure : Type 0 where
  error : Text → Failure
  panic : Text → Failure

pub data Result {ℓ} (A : Type ℓ) : Type ℓ where
  ok : A → Result A
  err : Failure → Result A

-- The result is a value.
abbrev pub IsOk {ℓ} : {A : Type ℓ} → Result A → Type 0
IsOk (ok a) = Unit
IsOk (err e) = ⊥

infixl 5 ◌>>=◌ ◌>>◌
-- The operator `?` and what follows it.
abbrev pub ◌>>=◌ {ℓ κ} : {A : Type ℓ} {B : Type κ} → Result A → (A → Result B) → Result B
err failure >>= next = err failure
ok value >>= next = next value

-- `Option::ok_or_else`
abbrev pub ok_or {ℓ} : {A : Type ℓ} → Option A → Failure → Result A
ok_or none e = err e
ok_or (some a) e = ok a

-- `?;` on a result that carries nothing.
abbrev pub ◌>>◌ {ℓ} : {B : Type ℓ} → Result (Unit {0}) → Result B → Result B
first >> second = first >>= λ u. second

-- To split on a result and keep the equation.
pub Result-cases {ℓ} :
    {A : Type ℓ} (r : Result A) → ((a : A) × (r ≡ ok a)) ⊎ ((f : Failure) × (r ≡ err f))
Result-cases (ok a) = inl (a, refl)
Result-cases (err f) = inr (f, refl)

-- What a chain of two steps with a value has done: the first step had a value, and so had the second.
module _ {ℓ κ} {A : Type ℓ} {B : Type κ} where
  pub bind-eq-ok :
      (step : Result A) (next : A → Result B) {value : B}
      → (step >>= next) ≡ ok value
      → (a : A) × (step ≡ ok a) × (next a ≡ ok value)
  bind-eq-ok (err failure) next h = cc
  bind-eq-ok (ok a) next h = (a, refl, h)

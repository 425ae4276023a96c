-- ===== src/Exec.antt =====
-- Methods that read and write state and may fail. What was written before a failure stays written,
-- so the state comes back beside the failure too.
use pg_analytics.Prelude.{◌≡◌, refl, arith, ◌⊎◌, inl, inr}
use pg_analytics.Text.{Text}
use pg_analytics.Result.{Failure, Result, ok, err, error, panic}

abbrev pub Exec : Type 0 → Type 0 → Type 0
Exec S A = S → Result A × S

module _ {S A : Type 0} where
  abbrev pub pure : A → Exec S A
  pure a s = (ok a, s)

  abbrev pub fail : Failure → Exec S A
  fail e s = (err e, s)

  -- A read of the state.
  abbrev pub gets : (S → A) → Exec S A
  gets f s = (ok (f s), s)

  -- A result that was computed without the state.
  abbrev pub lift : Result A → Exec S A
  lift r s = (r, s)

abbrev pub modify : {S : Type 0} → (S → S) → Exec S Unit
modify f s = (ok tt, f s)

module _ {S A B : Type 0} where
  abbrev go_on : (A → Exec S B) → Result A → Exec S B
  go_on next (err failure) s = (err failure, s)
  go_on next (ok value) s = next value s

  infixl 5 ◌>>=◌ ◌>>◌
  abbrev pub ◌>>=◌ : Exec S A → (A → Exec S B) → Exec S B
  ◌>>=◌ m f s = let (r, s') = m s in go_on f r s'

  abbrev pub ◌>>◌ : Exec S A → Exec S B → Exec S B
  m >> n = m >>= λ _. n

  abbrev handled : Result A → (Failure → Exec S B) → (A → Exec S B) → Exec S B
  handled (ok a) on_err on_ok s = on_ok a s
  handled (err (error message)) on_err on_ok s = on_err (error message) s
  handled (err (panic message)) on_err on_ok s = (err (panic message), s)

  -- `match m { Err(e) => …, Ok(a) => … }`; a panic leaves the `match` too.
  abbrev pub match_result : Exec S A → (Failure → Exec S B) → (A → Exec S B) → Exec S B
  match_result m on_err on_ok s = let (r, s') = m s in handled r on_err on_ok s'

-- The panic that a failure becomes; the message of a panic is final.
abbrev pub panicked : (Text → Text) → Failure → Failure
panicked message (error m) = panic (message m)
panicked message (panic m) = panic m

module _ {S A : Type 0} where
  -- `unwrap_or_else(|e| panic!(…))`, with the message of the panic.
  abbrev pub or_panic_with : (Text → Text) → Exec S A → Exec S A
  or_panic_with message m = match_result m (λ failure. fail (panicked message failure)) pure

  -- `unwrap_or_else(|e| panic!("{}", e))`
  abbrev pub or_panic : Exec S A → Exec S A
  or_panic = or_panic_with (λ message. message)

-- An action on a part of the state.
abbrev pub zoom : {S T A : Type 0} → (S → T) → (T → S → S) → Exec T A → Exec S A
zoom view put m s = let (r, t) = m (view s) in (r, put t s)

module _ {S A B : Type 0} where
  go_on-eq-ok :
      (r : Result A) (t : S) (f : A → Exec S B) {b : B} {s' : S}
      → go_on f r t ≡ (ok b, s')
      → (a : A) × (r ≡ ok a) × (f a t ≡ (ok b, s'))
  go_on-eq-ok (ok a) t f h = (a, refl, h)
  go_on-eq-ok (err e) t f h = ground arith

  -- Inversion of a sequence that succeeds.
  pub bind-eq-ok :
      (m : Exec S A) (f : A → Exec S B) (s : S) {b : B} {s' : S}
      → (m >>= f) s ≡ (ok b, s')
      → (a : A) × (t : S) × (m s ≡ (ok a, t)) × (f a t ≡ (ok b, s'))
  bind-eq-ok m f s h =
      let (a, e, k) = go_on-eq-ok (m s).0 (m s).1 f h in (a, (m s).1, ground (arith, e), k)

  handled-eq-ok :
      (r : Result A) (t : S) (on_err : Failure → Exec S B) (on_ok : A → Exec S B) {b : B} {s' : S}
      → handled r on_err on_ok t ≡ (ok b, s')
      → ((f : Failure) × (r ≡ err f) × (on_err f t ≡ (ok b, s')))
        ⊎ ((a : A) × (r ≡ ok a) × (on_ok a t ≡ (ok b, s')))
  handled-eq-ok (ok a) t on_err on_ok h = inr (a, refl, h)
  handled-eq-ok (err (error message)) t on_err on_ok h = inl (error message, refl, h)
  handled-eq-ok (err (panic message)) t on_err on_ok h = cc

  -- A `match` on a result that ends well went one of its two ways.
  pub match_result-eq-ok :
      (m : Exec S A) (on_err : Failure → Exec S B) (on_ok : A → Exec S B) (s : S) {b : B} {s' : S}
      → match_result m on_err on_ok s ≡ (ok b, s')
      → ((f : Failure) × (t : S) × (m s ≡ (err f, t)) × (on_err f t ≡ (ok b, s')))
        ⊎ ((a : A) × (t : S) × (m s ≡ (ok a, t)) × (on_ok a t ≡ (ok b, s')))
  match_result-eq-ok m on_err on_ok s h = elim (handled-eq-ok (m s).0 (m s).1 on_err on_ok h) [
    | inl (f, e, k) ↦ inl (f, (m s).1, ground (arith, e), k)
    | inr (a, e, k) ↦ inr (a, (m s).1, ground (arith, e), k)
  ]

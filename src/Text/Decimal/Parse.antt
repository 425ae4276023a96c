-- ===== src/Text/Decimal/Parse.antt =====
-- `str::parse::<u32>`, and that it reads back what `to_string` writes.
use Prim.Native.Nat.{◌/◌, ◌%◌, ◌*◌}
use pg_analytics.Prelude.{
  ℕ, zero, suc, ◌+◌, ◌-◌, ◌<◌, ◌&&◌, [], ◌∷◌, ◌≡◌, refl, ltb, leb, ◌==◌, if◌then◌else◌, arith, inl,
  inr, Bool-cases, ap, ◌∙◌,
}
use pg_analytics.Text.{Text, str}
use pg_analytics.Text.Decimal.{digits, to_string}
use pg_analytics.Result.{Result, ok, err, error}

abbrev pub u32_bound : ℕ
u32_bound = 4294967296

-- The digits behind those that made `n`.
unfoldable pub parse_digits : ℕ → Text → Result ℕ
parse_digits n [] = ok n
parse_digits n (c ∷ s) =
    let rest = parse_digits (n * 10 + (c - b'0')) s in
    if leb b'0' c && leb c b'9'
    then (if ltb (n * 10 + (c - b'0')) u32_bound
        then rest
        else err (error (str "number too large to fit in target type")))
    else err (error (str "invalid digit found in string"))

abbrev some_digits : Text → Result ℕ
some_digits [] = err (error (str "invalid digit found in string"))
some_digits (c ∷ s) = parse_digits 0 (c ∷ s)

-- At least one digit, behind a sign `+` if there is one.
unfoldable pub parse_u32 : Text → Result ℕ
unfolding parse_digits
parse_u32 [] = err (error (str "cannot parse integer from empty string"))
parse_u32 (c ∷ s) = if c == b'+' then some_digits s else parse_digits 0 (c ∷ s)

next_digit :
    (n d : ℕ) (rest : Text)
    → d < 10
    → n * 10 + d < u32_bound
    → parse_digits n ((b'0' + d) ∷ rest) ≡ parse_digits (n * 10 + d) rest
unfolding parse_digits
next_digit n d rest h b = ground arith

parse_digits-digits :
    (fuel n : ℕ) (rest : Text)
    → n < fuel
    → n < u32_bound
    → parse_digits 0 (digits fuel n rest) ≡ parse_digits n rest
unfolding parse_digits digits
parse_digits-digits zero n rest h b = absurd (omega arith)
parse_digits-digits (suc fuel) n rest h b = elim (Bool-cases (ltb n 10)) [
  | inl small ↦ ground (arith, next_digit 0 n rest)
  | inr large ↦ rw large (
      parse_digits-digits fuel (n / 10) ((b'0' + n % 10) ∷ rest) (ground arith) (omega arith)
      ∙ (next_digit (n / 10) (n % 10) rest (omega arith) (omega arith)
          ∙ ap (λ k. parse_digits k rest) (omega arith)))
]

digits-front :
    (fuel n : ℕ) (rest : Text)
    → n < fuel
    → (c : ℕ) × (s : Text) × (digits fuel n rest ≡ c ∷ s) × (b'0' < suc c)
unfolding digits
digits-front zero n rest h = absurd (omega arith)
digits-front (suc fuel) n rest h = elim (Bool-cases (ltb n 10)) [
  | inl small ↦ rw small (b'0' + n % 10, rest, refl, omega arith)
  | inr large ↦ rw large (digits-front fuel (n / 10) ((b'0' + n % 10) ∷ rest) (ground arith))
]

no_sign : (c : ℕ) (s t : Text) → t ≡ c ∷ s → b'0' < suc c → parse_u32 t ≡ parse_digits 0 t
unfolding parse_u32
no_sign c s t e h = rw e (ground arith)

pub parse_u32-to_string : (n : ℕ) → n < u32_bound → parse_u32 (to_string n) ≡ ok n
unfolding to_string parse_digits
parse_u32-to_string n b =
    let (c, s, e, h) = digits-front (suc n) n [] (omega arith) in
    no_sign c s (to_string n) e h ∙ parse_digits-digits (suc n) n [] (omega arith) b

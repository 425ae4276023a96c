-- ===== src/Text/Decimal.antt =====
-- `to_string` of an unsigned number.
pub mod Parse
use Prim.Native.Nat.{◌/◌, ◌%◌}
use pg_analytics.Prelude.{ℕ, zero, suc, ◌+◌, [], ◌∷◌, ltb, if◌then◌else◌}
use pg_analytics.Text.{Text}

-- The decimal digits of `n` in front of `rest`; `n / 10 < n`, so fuel above `n` is enough.
unfoldable pub digits : ℕ → ℕ → Text → Text
digits zero n rest = rest
digits (suc fuel) n rest =
    let digit = b'0' + n % 10 in
    let more = digits fuel (n / 10) (digit ∷ rest) in if ltb n 10 then digit ∷ rest else more

unfoldable pub to_string : ℕ → Text
unfolding digits
to_string n = digits (suc n) n []

-- ===== src/Fdw/Wrappers/Accepted/Stored.antt =====
-- The options of a table as a list of `name=value`, and as a map.
use pg_analytics.Prelude.{
  ℕ, some, [], ◌∷◌, ◌++◌, map, All, ◌≡◌, refl, arith, inl, inr, ap, Bool-cases,
}
use pg_analytics.Text.{Text, same}
use pg_analytics.Text.Equality.{same_iff}
use pg_analytics.Text.Join.{Lacks}
use pg_analytics.Options.{OptionMap, get}
use pg_analytics.Fdw.Validate.{OptList}
use pg_analytics.Fdw.Wrappers.Accepted.{Stores}

cons_parts : {c d : ℕ} {s t : Text} → c ∷ s ≡ d ∷ t → (c ≡ d) × (s ≡ t)
cons_parts e = (ground arith, ground arith)

-- In front of the first `=` of a text there is one name.
same_name : (p n v w : Text) → Lacks b'=' p → Lacks b'=' n → p ++ b'=' ∷ v ≡ n ++ b'=' ∷ w → p ≡ n
same_name [] [] v w hp hn e = refl
same_name [] (c ∷ n) v w hp hn e = absurd (hn.0 (ground arith))
same_name (c ∷ p) [] v w hp hn e = absurd (hp.0 (ground arith))
same_name (c ∷ p) (d ∷ n) v w hp hn e =
    let (h, t) = cons_parts e in rw h (ap (λ x. d ∷ x) (same_name p n v w hp.1 hn.1 t))

-- The options of a map as PostgreSQL lists them.
abbrev pub listed_options : OptionMap → OptList
listed_options m = map (λ kv. some (kv.0 ++ b'=' ∷ kv.1)) m

-- A map stores the options that it is listed as, if no name in it holds `=`.
pub listed_options-Stores :
    (m : OptionMap) → All (λ kv. Lacks b'=' kv.0) m → Stores (listed_options m) m
unfolding get
listed_options-Stores [] h name plain given = absurd given
listed_options-Stores ((k, v) ∷ m) (hk, h) name plain (inl (value, e)) =
    (v, ground (arith, same_name k name v value hk plain, same_iff k name))
listed_options-Stores ((k, v) ∷ m) (hk, h) name plain (inr given) =
    let (value, e) = listed_options-Stores m h name plain given in
    elim (Bool-cases (same k name)) [
      | inl s ↦ (v, ground (arith, s))
      | inr s ↦ (value, ground (arith, s, e))
    ]

-- ===== src/Fdw/Trigger/Arrays.antt =====
-- src/fdw/trigger.rs: the conversion of DuckDB's type names, arrays of any dimension included.
use pg_analytics.Prelude.{
  ℕ, zero, suc, false, List, [], ◌∷◌, ◌++◌, append-nil, ◌≡◌, ◌≢◌, refl, arith, All, inl, inr,
  Bool-cases,
}
use pg_analytics.Text.{Text, str, same, starts_with, replace}
use pg_analytics.Text.Equality.{same_sound}
use pg_analytics.Text.Join.{Lacks}
use pg_analytics.Text.Replace.{Apart, starts_with-append, replace-append}
use pg_analytics.Result.{ok}
use pg_analytics.Fdw.Trigger.{replacements, replace_all, postgres_type, duckdb_type_to_pg}
use pg_analytics.Fdw.Trigger.Kinds.{DuckdbType, duckdb_name, postgres_name, boolean}

-- `[]` for each dimension.
abbrev pub brackets : ℕ → Text
brackets zero = []
brackets (suc n) = b'[' ∷ b']' ∷ brackets n

-- The pattern is not empty, and holds no bracket.
abbrev IsPlain : Text → Type 0
IsPlain [] = ⊥
IsPlain (p ∷ ps) = Lacks b'[' (p ∷ ps) × Lacks b']' (p ∷ ps)

brackets-Apart : (n : ℕ) (pat : Text) → Lacks b'[' pat → Lacks b']' pat → Apart pat (brackets n)
brackets-Apart zero pat h k = tt
brackets-Apart (suc n) pat h k = (h, (k, brackets-Apart n pat h k))

replace-brackets :
    (pat by s : Text) (n : ℕ)
    → IsPlain pat
    → replace pat by (s ++ brackets (suc n)) ≡ replace pat by s ++ brackets (suc n)
replace-brackets [] by s n h = absurd h
replace-brackets (p ∷ ps) by s n (h, k) =
    replace-append p ps by s b'[' (b']' ∷ brackets n) (brackets-Apart (suc n) (p ∷ ps) h k)

replace_all-brackets :
    (rs : List (Text × Text)) (s : Text) (n : ℕ)
    → All (λ r. IsPlain r.0) rs
    → replace_all rs (s ++ brackets (suc n)) ≡ replace_all rs s ++ brackets (suc n)
unfolding replace_all
replace_all-brackets [] s n h = refl
replace_all-brackets ((pat, by) ∷ rs) s n (hp, hs) =
    rw (replace-brackets pat by s n hp) (replace_all-brackets rs (replace pat by s) n hs)

replacements-IsPlain : All (λ r. IsPlain r.0) replacements
unfolding replacements str
replacements-IsPlain = omega arith

postgres_type-brackets :
    (s : Text) (n : ℕ) → postgres_type (s ++ brackets (suc n)) ≡ postgres_type s ++ brackets (suc n)
unfolding postgres_type
postgres_type-brackets s n = replace_all-brackets replacements s n replacements-IsPlain

All-append_right : (P : ℕ → Type 0) (xs ys : Text) → All P (xs ++ ys) → All P ys
All-append_right P [] ys h = h
All-append_right P (x ∷ xs) ys (hx, h) = All-append_right P xs ys h

invalid-Lacks : Lacks b'[' (str "INVALID")
unfolding str
invalid-Lacks = omega arith

-- An array is no invalid type.
same_invalid : (s : Text) (n : ℕ) → same (s ++ brackets (suc n)) (str "INVALID") ≡ false
same_invalid s n = elim (Bool-cases (same (s ++ brackets (suc n)) (str "INVALID"))) [
  | inr h ↦ h
  | inl h ↦
      let e = same_sound (s ++ brackets (suc n)) (str "INVALID") h in
      absurd ((All-append_right (λ c. c ≢ b'[') s (brackets (suc n)) (rw e invalid-Lacks)).0 refl)
]

-- The words that the conversion looks for at the front of a type.
prefix_kept :
    (word s : Text) (n : ℕ)
    → Lacks b'[' word
    → starts_with word (s ++ brackets (suc n)) ≡ starts_with word s
prefix_kept word s n h = starts_with-append word s b'[' (b']' ∷ brackets n) h

words-Lacks :
    Lacks b'[' (str "MAP")
    × Lacks b'[' (str "ENUM")
    × Lacks b'[' (str "UNION")
    × Lacks b'[' (str "BIT")
    × Lacks b'[' (str "STRUCT")
unfolding str
words-Lacks = omega arith

-- If a type of DuckDB is converted, and not as a structure, then its arrays of each dimension are
-- converted to the arrays of the result, of the same dimension.
pub duckdb_type_to_pg-brackets :
    (column_name s : Text) (n : ℕ) (pg : Text)
    → duckdb_type_to_pg column_name s ≡ ok pg
    → starts_with (str "STRUCT") (postgres_type s) ≡ false
    → duckdb_type_to_pg column_name (s ++ brackets n) ≡ ok (pg ++ brackets n)
unfolding duckdb_type_to_pg
duckdb_type_to_pg-brackets column_name s zero pg h no_struct = rw (append-nil s, append-nil pg) h
duckdb_type_to_pg-brackets column_name s (suc n) pg h no_struct = ground (
  arith,
  same_invalid s n,
  prefix_kept (str "MAP") s n words-Lacks.0,
  prefix_kept (str "ENUM") s n words-Lacks.1,
  prefix_kept (str "UNION") s n words-Lacks.2,
  prefix_kept (str "BIT") s n words-Lacks.3,
  prefix_kept (str "STRUCT") (postgres_type s) n words-Lacks.4,
  postgres_type-brackets s n,
)

-- The conversion of each type by itself.
scalar_converted :
    (column_name : Text) (t : DuckdbType)
    → duckdb_type_to_pg column_name (duckdb_name t) ≡ ok (postgres_name t)
unfolding duckdb_type_to_pg duckdb_name postgres_name str same starts_with postgres_type replace
scalar_converted column_name boolean = refl
scalar_converted column_name _ = refl

scalar_no_struct :
    (t : DuckdbType) → starts_with (str "STRUCT") (postgres_type (duckdb_name t)) ≡ false
unfolding duckdb_name str starts_with postgres_type replace
scalar_no_struct boolean = refl
scalar_no_struct _ = refl

-- Every listed type of DuckDB, and every array of it, is converted to the PostgreSQL type that the
-- rule for its name gives, or keeps its name if it has no rule, with the dimensions kept, whatever
-- the column's name.
pub duckdb_type_to_pg-DuckdbType :
    (column_name : Text) (t : DuckdbType) (n : ℕ)
    → duckdb_type_to_pg column_name (duckdb_name t ++ brackets n)
      ≡ ok (postgres_name t ++ brackets n)
duckdb_type_to_pg-DuckdbType column_name t n =
    duckdb_type_to_pg-brackets column_name (duckdb_name t) n (postgres_name t)
      (scalar_converted column_name t) (scalar_no_struct t)

-- Three unsigned and spatial types for which a rule of the chain is never reached: a shorter rule
-- above it has rewritten the name. What they become, in each dimension, is not what their own rule
-- says, and for the first two no type of PostgreSQL.
pub duckdb_type_to_pg_shadowed :
    (column_name : Text) (n : ℕ)
    → (duckdb_type_to_pg column_name (str "UHUGEINT" ++ brackets n)
        ≡ ok (str "UNUMERIC" ++ brackets n))
      × (duckdb_type_to_pg column_name (str "WKB_BLOB" ++ brackets n)
          ≡ ok (str "WKB_TEXT" ++ brackets n))
      × (duckdb_type_to_pg column_name (str "UTINYINT" ++ brackets n)
          ≡ ok (str "INTEGER" ++ brackets n))
unfolding duckdb_type_to_pg str same starts_with postgres_type replace
duckdb_type_to_pg_shadowed column_name n = (
  duckdb_type_to_pg-brackets column_name (str "UHUGEINT") n (str "UNUMERIC") refl refl,
  duckdb_type_to_pg-brackets column_name (str "WKB_BLOB") n (str "WKB_TEXT") refl refl,
  duckdb_type_to_pg-brackets column_name (str "UTINYINT") n (str "INTEGER") refl refl,
)

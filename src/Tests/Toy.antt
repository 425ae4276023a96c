-- ===== src/Tests/Toy.antt =====
-- An engine in the place of DuckDB, a check of options in the place of supabase-wrappers, and a
-- reader of cells: what the tests run the model of src/duckdb and src/fdw on.
use pg_analytics.Prelude.{
  ℕ, zero, suc, Bool, true, false, Option, none, some, List, [], ◌∷◌, ◌++◌, ◌≡◌, refl, ◌↔◌, inl,
  inr, length, ◌||◌, arith, Bool-cases, append_assoc, ap, sym, ◌∙◌,
}
use pg_analytics.Text.{Text, str, starts_with}
use pg_analytics.Result.{Result, ok, err, error, panic, IsOk}
use pg_analytics.Duckdb.Engine.{Engine}
use pg_analytics.Duckdb.Connection.{Globals}
use pg_analytics.Fdw.Base.{Column, GetCell}
use pg_analytics.Fdw.Validate.{OptList, OptionCheck, Given}

-- The catalog shows a row as soon as a statement was run.
abbrev shown : List Text → List (Result (List (Option Text)))
shown [] = []
shown (statement ∷ db) = ok (some (str "main") ∷ []) ∷ []

abbrev numbers_at : List ℕ → ℕ → Result (List ℕ)
numbers_at batch zero = ok batch
numbers_at batch (suc i) = err (panic (str "index out of bounds"))

-- The statements that were run, last one first; each stream has two batches of one column.
abbrev pub toy : Engine
toy = record {
  Db = List Text;
  Stmt = Text;
  Batch = List ℕ;
  Array = List ℕ;
  open_in_memory = ok [];
  prepare = λ sql db. ok sql;
  query = λ stmt db. ok (shown db);
  query_arrow = λ stmt db. (ok ((1 ∷ 2 ∷ []) ∷ (3 ∷ []) ∷ []), db);
  execute = λ sql db. (ok 0, sql ∷ db);
  num_rows = length;
  column = numbers_at;
}

abbrev number_at : List ℕ → ℕ → Result (Option ℕ)
number_at [] i = err (panic (str "index out of bounds"))
number_at (n ∷ ns) zero = ok (some n)
number_at (n ∷ ns) (suc i) = number_at ns i

abbrev pub read_number : GetCell toy ℕ
read_number array row oid name = number_at array row

abbrev pub no_session : Globals toy
no_session = record { db = []; statement = none; arrow = none }

abbrev pub number_column : List Column
number_column = record { name = str "n"; type_oid = 23 } ∷ []

-- An element that begins with the option's name and `=`.
abbrev begins : Text → Option Text → Bool
begins name none = false
begins name (some o) = starts_with (name ++ b'=' ∷ []) o

abbrev given : Text → OptList → Bool
given name [] = false
given name (o ∷ opts) = begins name o || given name opts

starts_with-rest : (p s : Text) → starts_with p s ≡ true → (rest : Text) × (s ≡ p ++ rest)
unfolding starts_with
starts_with-rest [] s h = (s, refl)
starts_with-rest (p ∷ ps) [] h = cc
starts_with-rest (p ∷ ps) (c ∷ s) h =
    let (rest, e) = starts_with-rest ps s (ground arith) in (rest, ground (arith, e))

starts_with-own : (p rest : Text) → starts_with p (p ++ rest) ≡ true
unfolding starts_with
starts_with-own [] rest = refl
starts_with-own (p ∷ ps) rest = ground (arith, starts_with-own ps rest)

begins-split :
    (name : Text) (o : Option Text)
    → begins name o ≡ true
    → (value : Text) × (o ≡ some (name ++ b'=' ∷ value))
begins-split name none h = cc
begins-split name (some o) h =
    let (rest, e) = starts_with-rest (name ++ b'=' ∷ []) o h in
    (rest, ap some (e ∙ append_assoc name (b'=' ∷ []) rest))

begins-own : (name value : Text) → begins name (some (name ++ b'=' ∷ value)) ≡ true
begins-own name value =
    rw (sym (append_assoc name (b'=' ∷ []) value)) (starts_with-own (name ++ b'=' ∷ []) value)

pub given-Given : (name : Text) (opts : OptList) → given name opts ≡ true → Given name opts
given-Given name [] h = cc
given-Given name (o ∷ opts) h = elim (Bool-cases (begins name o)) [
  | inl b ↦ inl (begins-split name o b)
  | inr b ↦ inr (given-Given name opts (ground (arith, b)))
]

pub Given-given : (name : Text) (opts : OptList) → Given name opts → given name opts ≡ true
Given-given name [] g = absurd g
Given-given name (o ∷ opts) (inl (value, e)) = rw (e, begins-own name value) refl
Given-given name (o ∷ opts) (inr g) = ground (arith, Given-given name opts g)

abbrev verdict : Bool → Result (Unit {0})
verdict true = ok tt
verdict false = err (error (str "required option is not specified"))

pub verdict-IsOk : (b : Bool) → IsOk (verdict b) ↔ (b ≡ true)
verdict-IsOk true = (λ u. refl, λ e. tt)
verdict-IsOk false = (λ u. absurd u, λ e. cc)

abbrev pub prefix_check : OptionCheck
prefix_check = record {
  check_options_contain = λ opts name. verdict (given name opts);
  check_iff = λ opts name. (
    λ h. given-Given name opts ((verdict-IsOk (given name opts)).0 h),
    λ g. (verdict-IsOk (given name opts)).1 (Given-given name opts g),
  );
}

-- ===== src/Fdw/Validate/Exact.antt =====
-- src/fdw/base.rs: exactly which lists of options the validator accepts.
use pg_analytics.Prelude.{
  Bool, true, false, List, [], ◌∷◌, ◌≡◌, ◌⊎◌, ◌↔◌, inl, inr, flatten, map, All, Bool-cases, arith,
}
use pg_analytics.Text.{Text, same}
use pg_analytics.Text.Equality.{same_iff}
use pg_analytics.Result.{Result, ok, err, IsOk, ◌>>=◌}
use pg_analytics.Options.{OptionEnum}
use pg_analytics.Fdw.Validate.{
  OptList, OptionCheck, Given, option_name, contains, check_names, check_required,
  validate_mapping_option,
}

-- The text is in the list.
abbrev pub Among : Text → List Text → Type 0
Among t [] = ⊥
Among t (x ∷ xs) = (x ≡ t) ⊎ Among t xs

contains-Among : (xs : List Text) (t : Text) → contains xs t ≡ true → Among t xs
unfolding contains
contains-Among [] t h = cc
contains-Among (x ∷ xs) t h = elim (Bool-cases (same x t)) [
  | inl e ↦ inl ((same_iff x t).0 e)
  | inr e ↦ inr (contains-Among xs t (ground arith))
]

pub Among-contains : (xs : List Text) (t : Text) → Among t xs → contains xs t ≡ true
unfolding contains
Among-contains [] t m = absurd m
Among-contains (x ∷ xs) t (inl e) = rw ((same_iff x t).1 e)
Among-contains (x ∷ xs) t (inr m) = ground (arith, Among-contains xs t m)

check_names-All : (ns valid : List Text) → IsOk (check_names ns valid) → All (λ n. Among n valid) ns
unfolding check_names
check_names-All [] valid h = tt
check_names-All (n ∷ ns) valid h = elim (Bool-cases (contains valid n)) [
  | inl e ↦ (contains-Among valid n e, check_names-All ns valid (rw e at h))
  | inr e ↦ absurd (rw e at h)
]

All-check_names : (ns valid : List Text) → All (λ n. Among n valid) ns → IsOk (check_names ns valid)
unfolding check_names
All-check_names [] valid h = tt
All-check_names (n ∷ ns) valid (hn, hs) =
    rw (Among-contains valid n hn) (All-check_names ns valid hs)

bind-IsOk : (m n : Result (Unit {0})) → IsOk (m >>= λ _. n) → IsOk m × IsOk n
bind-IsOk (ok a) n h = (tt, h)
bind-IsOk (err e) n h = absurd h

IsOk-bind : (m n : Result (Unit {0})) → IsOk m → IsOk n → IsOk (m >>= λ _. n)
IsOk-bind (ok a) n h k = k
IsOk-bind (err e) n h k = absurd h

true-ne-false : (b : Bool) → b ≡ true → b ≡ false → ⊥
true-ne-false b p q = cc

module _ (T : Type 0) ⦃e : OptionEnum T⦄ (c : OptionCheck) where
  -- Each required option of the list of variants is given.
  abbrev pub RequiredGiven : List T → OptList → Type 0
  RequiredGiven os opts = All (λ o. e.is_required o ≡ true → Given (e.as_ref o) opts) os

  check_required-Given :
      (os : List T) (opts : OptList) → IsOk (check_required T c os opts) → RequiredGiven os opts
  unfolding check_required
  check_required-Given [] opts h = tt
  check_required-Given (o ∷ os) opts h = elim (Bool-cases (e.is_required o)) [
    | inl r ↦
        let both = bind-IsOk _ _ (rw r at h) in
        (λ _. (c.check_iff opts (e.as_ref o)).0 both.0, check_required-Given os opts both.1)
    | inr r ↦ (
      λ r'. absurd (true-ne-false (e.is_required o) r' r),
      check_required-Given os opts (rw r at h),
    )
  ]

  Given-check_required :
      (os : List T) (opts : OptList) → RequiredGiven os opts → IsOk (check_required T c os opts)
  unfolding check_required
  Given-check_required [] opts h = tt
  Given-check_required (o ∷ os) opts (ho, hs) = elim (Bool-cases (e.is_required o)) [
    | inl r ↦ rw r (
        IsOk-bind (c.check_options_contain opts (e.as_ref o)) _
          ((c.check_iff opts (e.as_ref o)).1 (ho r)) (Given-check_required os opts hs))
    | inr r ↦ rw r (Given-check_required os opts hs)
  ]

  -- The validator accepts a list of options exactly when the name of each option that is there is
  -- one of the enum, and each required option of the enum is given.
  pub validate_mapping_option_iff :
      (opts : OptList)
      → IsOk (validate_mapping_option T c opts) ↔ (
          All (λ n. Among n (map e.as_ref e.iter)) (map option_name (flatten opts))
          × RequiredGiven e.iter opts)
  unfolding validate_mapping_option
  validate_mapping_option_iff opts = (
    λ h.
        let both = bind-IsOk _ _ h in
        (check_names-All _ _ both.0, check_required-Given e.iter opts both.1),
    λ (names, required).
        IsOk-bind _ _ (All-check_names _ _ names) (Given-check_required e.iter opts required),
  )

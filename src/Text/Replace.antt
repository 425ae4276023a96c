-- ===== src/Text/Replace.antt =====
-- Laws of `starts_with` and `replace` behind which a suffix stands that a pattern cannot touch.
use pg_analytics.Prelude.{
  ℕ, zero, suc, ◌≤◌, true, [], ◌∷◌, ◌++◌, ◌≡◌, refl, arith, All, inl, inr, Bool-cases, append_assoc,
}
use pg_analytics.Text.{Text, starts_with, replace_from, replace, count}
use pg_analytics.Text.Join.{Lacks}

-- No character of the suffix occurs in the pattern.
abbrev pub Apart : Text → Text → Type 0
Apart pat t = All (λ c. Lacks c pat) t

pub starts_with-append :
    (pat s : Text) (c : ℕ) (t : Text)
    → Lacks c pat
    → starts_with pat (s ++ (c ∷ t)) ≡ starts_with pat s
unfolding starts_with
starts_with-append [] s c t h = refl
starts_with-append (p ∷ ps) [] c t h = ground arith
starts_with-append (p ∷ ps) (d ∷ s) c t h = ground (arith, starts_with-append ps s c t)

starts_with-count : (pat s : Text) → starts_with pat s ≡ true → count pat ≤ count s
unfolding starts_with
starts_with-count [] s h = omega arith
starts_with-count (p ∷ ps) [] h = cc
starts_with-count (p ∷ ps) (c ∷ s) h = ground (arith, starts_with-count ps s)

module _ (p : ℕ) (ps : Text) (by : Text) where
  replace_from-Apart : (t : Text) → Apart (p ∷ ps) t → replace_from (p ∷ ps) by 0 t ≡ t
  unfolding replace_from starts_with
  replace_from-Apart [] h = refl
  replace_from-Apart (c ∷ t) ((ne, more), h) = ground (arith, replace_from-Apart t h)

  replace_from-append :
      (skip : ℕ) (s : Text) (c : ℕ) (t : Text)
      → Apart (p ∷ ps) (c ∷ t)
      → skip ≤ count s
      → replace_from (p ∷ ps) by skip (s ++ (c ∷ t)) ≡ replace_from (p ∷ ps) by skip s ++ (c ∷ t)
  unfolding replace_from
  replace_from-append zero [] c t apart fits = replace_from-Apart (c ∷ t) apart
  replace_from-append (suc skip) [] c t apart fits = absurd (omega arith)
  replace_from-append (suc skip) (d ∷ s) c t apart fits =
      replace_from-append skip s c t apart (omega arith)
  replace_from-append zero (d ∷ s) c t apart fits =
      let keep = starts_with-append (p ∷ ps) (d ∷ s) c t apart.0 in
      elim (Bool-cases (starts_with (p ∷ ps) (d ∷ s))) [
        | inl m ↦
            let fits' = starts_with-count (p ∷ ps) (d ∷ s) m in
            let ih = replace_from-append (count ps) s c t apart (omega arith) in
            ground
              (arith, keep, m, ih, append_assoc by (replace_from (p ∷ ps) by (count ps) s) (c ∷ t))
        | inr m ↦ ground (arith, keep, m, replace_from-append 0 s c t apart (omega arith))
      ]

-- A suffix whose characters do not occur in the pattern stays as it is.
pub replace-append :
    (p : ℕ) (ps by s : Text) (c : ℕ) (t : Text)
    → Apart (p ∷ ps) (c ∷ t)
    → replace (p ∷ ps) by (s ++ (c ∷ t)) ≡ replace (p ∷ ps) by s ++ (c ∷ t)
unfolding replace
replace-append p ps by s c t apart = replace_from-append p ps by 0 s c t apart (omega arith)

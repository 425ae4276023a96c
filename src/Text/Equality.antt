-- ===== src/Text/Equality.antt =====
-- `==` on texts decides equality.
use pg_analytics.Prelude.{◌≡◌, refl, ◌↔◌, true, false, [], ◌∷◌, arith, ◌⊎◌, inl, inr, Bool-cases}
use pg_analytics.Text.{Text, same}

pub same_sound : (s t : Text) → same s t ≡ true → s ≡ t
unfolding same
same_sound [] [] h = refl
same_sound [] (d ∷ t) h = cc
same_sound (c ∷ s) [] h = cc
same_sound (c ∷ s) (d ∷ t) h = ground (arith, same_sound s t)

pub same_refl : (s : Text) → same s s ≡ true
unfolding same
same_refl [] = refl
same_refl (c ∷ s) = ground (arith, same_refl s)

pub same_iff : (s t : Text) → (same s t ≡ true) ↔ (s ≡ t)
same_iff s t = (same_sound s t, λ e. rw (← e) (same_refl s))

-- A text is the given one or it is not.
pub same-cases : (s t : Text) → (s ≡ t) ⊎ (same s t ≡ false)
same-cases s t = elim (Bool-cases (same s t)) [ inl h ↦ inl (same_sound s t h) | inr h ↦ inr h ]

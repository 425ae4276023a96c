-- ===== src/Text/Join.antt =====
-- Splitting what `join` has joined.
use pg_analytics.Prelude.{ℕ, ◌≡◌, refl, ◌≢◌, List, [], ◌∷◌, ◌++◌, arith, All, map, append_assoc, ap}
use pg_analytics.Text.{Text, split, join, trim, is_whitespace}

-- No character of the text is the separator.
abbrev pub Lacks : ℕ → Text → Type 0
Lacks sep = All (λ c. c ≢ sep)

Lacks-append : (sep : ℕ) (p q : Text) → Lacks sep p → Lacks sep q → Lacks sep (p ++ q)
Lacks-append sep [] q hp hq = hq
Lacks-append sep (c ∷ p) q (hc, hp) hq = (hc, Lacks-append sep p q hp hq)

join_one : (sep x : Text) → join sep (x ∷ []) ≡ x
unfolding join
join_one sep x = refl

join_cons :
    (sep x y : Text) (rest : List Text)
    → join sep (x ∷ y ∷ rest) ≡ x ++ (sep ++ join sep (y ∷ rest))
unfolding join
join_cons sep x y rest = refl

module _ (sep : ℕ) where
  pub split-Lacks : (p : Text) → Lacks sep p → split sep p ≡ p ∷ []
  unfolding split
  split-Lacks [] h = refl
  split-Lacks (c ∷ p) h = ground (arith, split-Lacks p)

  -- The first part of a split ends at the first separator.
  pub split-append :
      (p rest : Text) → Lacks sep p → split sep (p ++ (sep ∷ rest)) ≡ p ∷ split sep rest
  unfolding split
  split-append [] rest h = ground arith
  split-append (c ∷ p) rest h = ground (arith, split-append p rest)

  append-join :
      (filler p : Text) (ps : List Text)
      → filler ++ join (sep ∷ filler) (p ∷ ps) ≡ join (sep ∷ filler) ((filler ++ p) ∷ ps)
  unfolding join
  append-join filler p [] = refl
  append-join filler p (q ∷ ps) = rw append_assoc

  -- Splitting texts that were joined by the separator and a filler gives them back, each but the
  -- first behind the filler.
  pub split-join :
      (filler p : Text) (ps : List Text)
      → Lacks sep filler
      → All (Lacks sep) (p ∷ ps)
      → split sep (join (sep ∷ filler) (p ∷ ps)) ≡ p ∷ map (λ q. filler ++ q) ps
  split-join filler p [] hf (hp, hs) = rw join_one (split-Lacks p hp)
  split-join filler p (q ∷ ps) hf (hp, (hq, hs)) =
      let rest = split-join filler (filler ++ q) ps hf (Lacks-append sep filler q hf hq, hs) in
      rw join_cons (
        rw (split-append p (filler ++ join (sep ∷ filler) (q ∷ ps)) hp)
          (rw (append-join filler q ps) (ap (λ r. p ∷ r) rest)))

-- Leading and trailing white space: what `trim` leaves alone.
abbrev pub IsTrimmed : Text → Type 0
IsTrimmed p = trim p ≡ p

pub trim_space : (p : Text) → IsTrimmed p → trim (32 ∷ p) ≡ p
unfolding trim is_whitespace
trim_space p h = h

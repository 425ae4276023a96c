-- ===== src/Text.antt =====
-- Text: the code points of a Rust `str` or `String`, and the methods of `str` that the code calls
-- (`==`, `join`, `split`, `trim`, `starts_with`, `replace`, `eq_ignore_ascii_case`).
pub mod Equality
pub mod Join
pub mod Replace
pub mod Decimal
use Prim.Native.Char.{code}
use Prim.Native.String.{String}
use pg_analytics.Prelude.{
  ℕ, zero, suc, ◌+◌, Bool, true, false, ◌&&◌, ◌||◌, List, [], ◌∷◌, ◌++◌, leb, ◌==◌, if◌then◌else◌,
  map,
}

abbrev pub Text : Type 0
Text = List ℕ

-- A string literal of the source.
unfoldable pub str : String → Text
str String.[] = []
str (String.◌∷◌ c s) = code c ∷ str s

-- `==` on texts
unfoldable pub same : Text → Text → Bool
same [] [] = true
same [] (d ∷ t) = false
same (c ∷ s) [] = false
same (c ∷ s) (d ∷ t) = (c == d) && same s t

-- `format!`: the literal pieces and the arguments, in order.
unfoldable pub concat : List Text → Text
concat [] = []
concat (x ∷ []) = x
concat (x ∷ y ∷ rest) = x ++ concat (y ∷ rest)

-- `[String]::join`
unfoldable pub join : Text → List Text → Text
join sep [] = []
join sep (x ∷ []) = x
join sep (x ∷ y ∷ rest) = x ++ (sep ++ join sep (y ∷ rest))

abbrev cons_head : ℕ → List Text → List Text
cons_head c [] = (c ∷ []) ∷ []
cons_head c (p ∷ ps) = (c ∷ p) ∷ ps

-- `str::split` by one character: the parts between the separators, one more than there are
-- separators.
unfoldable pub split : ℕ → Text → List Text
split sep [] = [] ∷ []
split sep (c ∷ s) = let parts = split sep s in if c == sep then [] ∷ parts else cons_head c parts

-- `char::is_whitespace`
unfoldable pub is_whitespace : ℕ → Bool
is_whitespace c =
    (leb 9 c && leb c 13)
    || (c == 32)
    || (c == 0x85)
    || (c == 0xa0)
    || (c == 0x1680)
    || (leb 0x2000 c && leb c 0x200a)
    || (c == 0x2028)
    || (c == 0x2029)
    || (c == 0x202f)
    || (c == 0x205f)
    || (c == 0x3000)

unfoldable pub trim_start : Text → Text
trim_start [] = []
trim_start (c ∷ s) = let rest = trim_start s in if is_whitespace c then rest else c ∷ s

abbrev is_nil : Text → Bool
is_nil [] = true
is_nil (c ∷ s) = false

unfoldable pub trim_end : Text → Text
trim_end [] = []
trim_end (c ∷ s) = let rest = trim_end s in if is_whitespace c && is_nil rest then [] else c ∷ rest

-- `str::trim`
unfoldable pub trim : Text → Text
unfolding trim_start trim_end
trim s = trim_end (trim_start s)

unfoldable pub starts_with : Text → Text → Bool
starts_with [] s = true
starts_with (p ∷ ps) [] = false
starts_with (p ∷ ps) (c ∷ s) = (p == c) && starts_with ps s

abbrev count : Text → ℕ
count [] = 0
count (c ∷ s) = suc (count s)

-- The characters of a match behind its first one.
abbrev rest_of_match : Text → ℕ
rest_of_match [] = 0
rest_of_match (p ∷ ps) = count ps

-- `skip` characters of a match are still to be passed over.
unfoldable pub replace_from : Text → Text → ℕ → Text → Text
replace_from pat by skip [] = []
replace_from pat by (suc skip) (c ∷ s) = replace_from pat by skip s
replace_from pat by zero (c ∷ s) =
    let matched = by ++ replace_from pat by (rest_of_match pat) s in
    let other = c ∷ replace_from pat by zero s in if starts_with pat (c ∷ s) then matched else other

-- `str::replace` for a pattern that is not empty: the matches from the left that do not overlap.
unfoldable pub replace : Text → Text → Text → Text
unfolding replace_from starts_with
replace pat by s = replace_from pat by zero s

-- `to_ascii_lowercase` of one character
unfoldable pub lower : ℕ → ℕ
lower c = if leb b'A' c && leb c b'Z' then c + 32 else c

unfoldable pub eq_ignore_ascii_case : Text → Text → Bool
unfolding same lower
eq_ignore_ascii_case s t = same (map lower s) (map lower t)

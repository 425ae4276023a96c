-- ===== src/Duckdb/Utils.antt =====
-- src/duckdb/utils.rs
use pg_analytics.Prelude.{◌≡◌, refl, List, [], ◌∷◌, ◌++◌, map, All, ap, arith}
use pg_analytics.Text.{Text, str, concat, join, split, trim}
use pg_analytics.Text.Join.{Lacks, IsTrimmed, split-join, split-Lacks, trim_space}

unfoldable pub quote : Text → Text
quote chunk = concat (str "'" ∷ chunk ∷ str "'" ∷ [])

-- The number of parts decides between one text and a list of texts.
unfoldable pub format_parts : Text → List Text → Text
format_parts csv_str (chunk ∷ []) = quote csv_str
format_parts csv_str chunks =
    str "[" ++ (join (str ", ") (map (λ chunk. quote (trim chunk)) chunks) ++ str "]")

unfoldable pub format_csv : Text → Text
unfolding format_parts
format_csv csv_str = format_parts csv_str (split b',' csv_str)

map-trim_space :
    (ps : List Text)
    → All IsTrimmed ps
    → map (λ chunk. quote (trim chunk)) (map (λ p. 32 ∷ p) ps) ≡ map quote ps
map-trim_space [] h = refl
map-trim_space (p ∷ ps) (hp, hs) =
    rw (trim_space p hp) (ap (λ r. quote p ∷ r) (map-trim_space ps hs))

-- A path without a comma becomes one quoted text.
pub format_csv_one : (p : Text) → Lacks b',' p → format_csv p ≡ quote p
unfolding format_csv
format_csv_one p h = rw (split-Lacks b',' p h)

comma_space : str ", " ≡ b',' ∷ 32 ∷ []
unfolding str
comma_space = refl

split_paths :
    (p : Text) (ps : List Text)
    → All (Lacks b',') (p ∷ ps)
    → split b',' (join (str ", ") (p ∷ ps)) ≡ p ∷ map (λ q. 32 ∷ q) ps
split_paths p ps h = rw comma_space (split-join b',' (32 ∷ []) p ps (omega arith) h)

-- Two or more paths without commas or outer white space, joined by a comma and a space, become
-- the DuckDB list of the quoted paths.
pub format_csv-join :
    (p q : Text) (ps : List Text)
    → All (Lacks b',') (p ∷ q ∷ ps)
    → All IsTrimmed (p ∷ q ∷ ps)
    → format_csv (join (str ", ") (p ∷ q ∷ ps))
      ≡ str "[" ++ (join (str ", ") (map quote (p ∷ q ∷ ps)) ++ str "]")
unfolding format_csv
format_csv-join p q ps hl (hp, ht) = rw (split_paths p (q ∷ ps) hl) (
    rw hp (
      ap (λ r. str "[" ++ (join (str ", ") (quote p ∷ r) ++ str "]")) (map-trim_space (q ∷ ps) ht)))

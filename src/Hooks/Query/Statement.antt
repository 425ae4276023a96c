-- ===== src/Hooks/Query/Statement.antt =====
-- src/hooks/query.rs: which statement of a text is taken, and which relations go to DuckDB.
use pg_analytics.Prelude.{
  ℕ, zero, suc, ◌+◌, ◌-◌, ◌<◌, true, false, none, some, List, [], ◌∷◌, ◌++◌, append-nil, length,
  length-append, take, drop, all, All, ◌≡◌, ◌≢◌, ◌↔◌, inl, inr, refl, arith, ap,
}
use pg_analytics.Text.{Text, str, same}
use pg_analytics.Fdw.Validate.Exact.{Among}
use pg_analytics.Result.{ok}
use pg_analytics.Fdw.Handler.{
  FdwHandler, csv, json, parquet, delta, iceberg, spatial, other, from_name, is_other,
  handler_name_of, handler_name_of-from_name,
}
use pg_analytics.Hooks.World.{Relation}
use pg_analytics.Hooks.Query.{slice, get_current_query, is_duckdb_relation, is_duckdb_query}

take-append : (q post : Text) (n : ℕ) → n ≡ length q → take n (q ++ post) ≡ q
take-append [] post zero h = refl
take-append [] post (suc n) h = absurd (omega arith)
take-append (c ∷ q) post zero h = absurd (omega arith)
take-append (c ∷ q) post (suc n) h = ap (λ x. c ∷ x) (take-append q post n (omega arith))

drop-append : (pre s : Text) → drop (length pre) (pre ++ s) ≡ s
drop-append [] s = refl
drop-append (c ∷ pre) s = drop-append pre s

slice-middle :
    (pre q post : Text) (stop : ℕ)
    → stop ≡ length pre + length q
    → slice (length pre) stop (pre ++ (q ++ post)) ≡ ok q
unfolding slice
slice-middle pre q post stop h = ground (
  arith,
  length-append pre (q ++ post),
  length-append q post,
  drop-append pre (q ++ post),
  take-append q post (stop - length pre),
)

slice-rest : (pre q : Text) → slice (length pre) (length (pre ++ q)) (pre ++ q) ≡ ok q
slice-rest pre q =
    rw (append-nil q) at (slice-middle pre q [] (length (pre ++ q)) (length-append pre q))

-- In a text of several statements, the hook takes the statement that PostgreSQL has planned: the one
-- at the location, with the given length, which is not 0; with a length of 0, the rest of the text
-- from the location on; and with a location of -1 the whole text, whatever the length.
pub get_current_query-eq :
    (pre query post : Text) (len : ℕ)
    → 0 < length query
    → (get_current_query (some (length pre)) (length query) (ok (pre ++ (query ++ post)))
        ≡ ok query)
      × (get_current_query (some (length pre)) 0 (ok (pre ++ query)) ≡ ok query)
      × (get_current_query none len (ok query) ≡ ok query)
unfolding get_current_query
get_current_query-eq pre query post len h = (
  ground (arith, slice-middle pre query post (length pre + length query)),
  slice-rest pre query,
  refl,
)

-- The names of the handlers of the six wrappers.
abbrev pub wrapper_names : List Text
wrapper_names =
    str "csv_fdw_handler"
    ∷ str "json_fdw_handler"
    ∷ str "parquet_fdw_handler"
    ∷ str "delta_fdw_handler"
    ∷ str "iceberg_fdw_handler"
    ∷ str "spatial_fdw_handler"
    ∷ []

-- A relation that DuckDB can read: a foreign table with one of the six wrappers, by its name.
abbrev pub IsOurs : Relation → Type 0
IsOurs r = (r.is_foreign_table ≡ true) × Among r.handler_name wrapper_names

handler_name_of-Among :
    (h : FdwHandler) → is_other h ≡ false → Among (handler_name_of h) wrapper_names
unfolding is_other
handler_name_of-Among csv known = inl refl
handler_name_of-Among json known = inr (inl refl)
handler_name_of-Among parquet known = inr (inr (inl refl))
handler_name_of-Among delta known = inr (inr (inr (inl refl)))
handler_name_of-Among iceberg known = inr (inr (inr (inr (inl refl))))
handler_name_of-Among spatial known = inr (inr (inr (inr (inr (inl refl)))))
handler_name_of-Among other known = cc

Among-is_other : (name : Text) → Among name wrapper_names → is_other (from_name name) ≡ false
unfolding is_other from_name str same
Among-is_other name (inl e) = rw (← e) refl
Among-is_other name (inr (inl e)) = rw (← e) refl
Among-is_other name (inr (inr (inl e))) = rw (← e) refl
Among-is_other name (inr (inr (inr (inl e)))) = rw (← e) refl
Among-is_other name (inr (inr (inr (inr (inl e))))) = rw (← e) refl
Among-is_other name (inr (inr (inr (inr (inr (inl e)))))) = rw (← e) refl
Among-is_other name (inr (inr (inr (inr (inr (inr none_left)))))) = absurd none_left

is_other_iff : (name : Text) → (is_other (from_name name) ≡ false) ↔ Among name wrapper_names
is_other_iff name = (
  λ e. rw (handler_name_of-from_name name e) at (handler_name_of-Among (from_name name) e),
  λ n. Among-is_other name n,
)

IsOurs-all : (rs : List Relation) → All IsOurs rs → all is_duckdb_relation rs ≡ true
IsOurs-all [] h = refl
IsOurs-all (r ∷ rs) ((foreign, ours), h) =
    ground (arith, (is_other_iff r.handler_name).1 ours, IsOurs-all rs h)

all-IsOurs : (rs : List Relation) → all is_duckdb_relation rs ≡ true → All IsOurs rs
all-IsOurs [] h = tt
all-IsOurs (r ∷ rs) h =
    ((ground arith, (is_other_iff r.handler_name).0 (ground arith)), all-IsOurs rs (ground arith))

-- A query goes to DuckDB exactly when it has relations and each of them is a foreign table with one
-- of the six wrappers.
pub is_duckdb_query_iff :
    (rs : List Relation) → (is_duckdb_query rs ≡ true) ↔ ((rs ≢ []) × All IsOurs rs)
unfolding is_duckdb_query
is_duckdb_query_iff [] = (λ h. cc, λ (n, a). absurd (n refl))
is_duckdb_query_iff (r ∷ rs) =
    (λ h. (λ e. cc, all-IsOurs (r ∷ rs) h), λ (n, a). IsOurs-all (r ∷ rs) a)

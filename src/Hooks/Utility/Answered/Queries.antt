-- ===== src/Hooks/Utility/Answered/Queries.antt =====
-- src/hooks/utility/view.rs, src/hooks/utility/explain.rs, and DEALLOCATE of
-- src/hooks/utility/prepare.rs: what the handlers have done when they return.
use pg_analytics.Prelude.{
  Bool, true, false, Option, none, some, List, [], ◌∷◌, ◌++◌, ◌≡◌, arith, inl, inr, Bool-cases,
  append_assoc,
}
use pg_analytics.Text.{Text, str, concat}
use pg_analytics.Result.{Result, ok, err}
use pg_analytics.Exec.{pure, lift, ◌>>=◌, ◌>>◌, bind-eq-ok}
use pg_analytics.Duckdb.Engine.{Engine}
use pg_analytics.Duckdb.Connection.{execute}
use pg_analytics.Hooks.World.{Postgres, text_begun, text_output, World, emit}
use pg_analytics.Hooks.Query.{set_search_path_by_pg}
use pg_analytics.Hooks.Utility.View.{Planned, not_for_duckdb, any_not_for_duckdb, view_query}
use pg_analytics.Hooks.Utility.Prepare.{deallocate_query}
use pg_analytics.Hooks.Utility.Explain.{
  Parsed, ExplainState, ExplainStmt, parse_explain_options, parse_query_from_utility_stmt,
  explain_query, explain_output,
}
use pg_analytics.Hooks.Utility.Answered.{
  Handled, ended, unwarned, behind_action, behind_result, attempted, ignored,
}

module _ (e : Engine) (Cell : Type 0) where
  module _ (pg : Postgres) where
    pub view_query-Handled :
        (query_string : Result Text) (plans : List Planned) (w w' : World e Cell) (b : Bool)
        → view_query e Cell pg query_string plans w ≡ (ok b, w')
        → Handled e Cell b w.events w'.events
    unfolding view_query
    view_query-Handled query_string plans w w' b h =
        elim (Bool-cases (any_not_for_duckdb pg plans)) [
          | inl c ↦ ended e Cell true b w w' w (rw c at h) (unwarned e Cell w.events)
          | inr c ↦ behind_action e Cell (set_search_path_by_pg e pg) _ w w' b (rw c at h) λ u g k.
              behind_result e Cell query_string _ (record w { globals = g }) w' b k
                λ query k'. attempted e Cell (execute e query) (record w { globals = g }) w' b k'
        ]

  pub deallocate_query-Handled :
      (name : Option (Result Text)) (w w' : World e Cell) (b : Bool)
      → deallocate_query e Cell name w ≡ (ok b, w')
      → Handled e Cell b w.events w'.events
  unfolding deallocate_query
  deallocate_query-Handled none w w' b h = ended e Cell true b w w' w h (unwarned e Cell w.events)
  deallocate_query-Handled (some name) w w' b h =
      behind_result e Cell name _ w w' b h λ n k.
        ignored e Cell (execute e (concat (str "DEALLOCATE \"" ∷ n ∷ str "\"" ∷ []))) w w' b k

  -- The end of EXPLAIN.
  put_out :
      (r : Result Text) (w w' : World e Cell) (b : Bool)
      → (emit e Cell text_begun
            >> (lift r >>= λ output. emit e Cell (text_output output) >> pure false))
          w
        ≡ (ok b, w')
      → Handled e Cell b w.events w'.events
  put_out (err f) w w' b h = ground (arith, h)
  put_out (ok output) w w' b h =
      ended e Cell false b w w'
        (record w { events = (w.events ++ text_begun ∷ []) ++ text_output output ∷ [] }) h
        (inl (output, append_assoc w.events (text_begun ∷ []) (text_output output ∷ [])))

  module _ (pg : Postgres) (parse_sql : Text → Result (List Parsed)) (duration : Text) where
    explain_output-quiet :
        (state : ExplainState) (query output : Text) (w t : World e Cell)
        → explain_output e Cell pg parse_sql duration state query w ≡ (ok output, t)
        → t.events ≡ w.events
    unfolding explain_output
    explain_output-quiet state query output w t h = ground arith

    pub explain_query-Handled :
        (query_string : Result Text) (stmt : ExplainStmt) (w w' : World e Cell) (b : Bool)
        → explain_query e Cell pg parse_sql duration query_string stmt w ≡ (ok b, w')
        → Handled e Cell b w.events w'.events
    unfolding explain_query
    explain_query-Handled query_string stmt w w' b h =
        elim (Bool-cases (not_for_duckdb pg stmt.query)) [
          | inl c ↦ ended e Cell true b w w' w (rw c at h) (unwarned e Cell w.events)
          | inr c ↦
              behind_result e Cell (parse_explain_options stmt.options) _ w w' b (rw c at h)
                λ state k.
                  behind_result e Cell
                    (parse_query_from_utility_stmt e Cell pg parse_sql duration query_string) _ w w'
                    b k
                    λ query k'.
                      let (output, t, p, k₂) =
                        bind-eq-ok (explain_output e Cell pg parse_sql duration state query) _ w
                          k' in
                      let quiet = explain_output-quiet state query output w t p in
                      rw quiet at (put_out _ t w' b k₂)
        ]

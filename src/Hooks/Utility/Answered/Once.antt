-- ===== src/Hooks/Utility/Answered/Once.antt =====
-- src/hooks/utility.rs: a utility statement is answered once, by PostgreSQL's hook or by DuckDB.
use pg_analytics.Prelude.{
  if◌then◌else◌, Bool, true, false, not, ◌||◌, List, [], ◌∷◌, ◌++◌, append_assoc, map, length, ◌≤◌,
  ◌≡◌, ◌⊎◌, arith, inl, inr, ap, Bool-cases,
}
use pg_analytics.Text.{Text}
use pg_analytics.Result.{Failure, Result, ok}
use pg_analytics.Exec.{pure, bind-eq-ok}
use pg_analytics.Duckdb.Engine.{Engine}
use pg_analytics.Fdw.Base.{GetCell}
use pg_analytics.Hooks.World.{Postgres, prev_hook, fallback_warning, World, emit}
use pg_analytics.Hooks.Query.{Dest}
use pg_analytics.Hooks.Utility.Explain.{Parsed}
use pg_analytics.Hooks.Utility.{
  prepare_stmt, execute_stmt, deallocate_stmt, explain_stmt, view_stmt, other_stmt, UtilityStmt,
  is_support_utility, handle_utility, process_utility_hook,
}
use pg_analytics.Hooks.Utility.Answered.{AnsweredByDuckdb, Handled, ended, unwarned}
use pg_analytics.Hooks.Utility.Answered.Queries.{
  view_query-Handled, deallocate_query-Handled, explain_query-Handled,
}
use pg_analytics.Hooks.Utility.Answered.Prepared.{execute_query-Handled}

module _ (e : Engine) (Cell : Type 0) (get_cell : GetCell e Cell) (pg : Postgres)
    (parse_sql : Text → Result (List Parsed)) (duration : Text) where
  -- PostgreSQL's hook ran the statement, last, behind at most one warning.
  abbrev pub AnsweredByPostgres : World e Cell → World e Cell → Type 0
  AnsweredByPostgres w w' =
      (ws : List Failure) × (w'.events ≡ w.events ++ (map fallback_warning ws ++ prev_hook ∷ []))
      × (length ws ≤ 1)

  handle_utility-Handled :
      (dest : Dest) (query_string : Result Text) (stmt : UtilityStmt) (w w' : World e Cell)
      (b : Bool)
      → handle_utility e Cell get_cell pg parse_sql duration dest query_string stmt w ≡ (ok b, w')
      → Handled e Cell b w.events w'.events
  unfolding handle_utility
  handle_utility-Handled dest q prepare_stmt w w' b h =
      ended e Cell true b w w' w h (unwarned e Cell w.events)
  handle_utility-Handled dest q (execute_stmt source) w w' b h =
      execute_query-Handled e Cell get_cell pg dest q source w w' b h
  handle_utility-Handled dest q (deallocate_stmt name) w w' b h =
      deallocate_query-Handled e Cell name w w' b h
  handle_utility-Handled dest q (explain_stmt stmt) w w' b h =
      explain_query-Handled e Cell pg parse_sql duration q stmt w w' b h
  handle_utility-Handled dest q (view_stmt plans) w w' b h =
      view_query-Handled e Cell pg q plans w w' b h
  handle_utility-Handled dest q other_stmt w w' b h = cc

  finished :
      (need : Bool) (w t w' : World e Cell)
      → Handled e Cell need w.events t.events
      → (if need then emit e Cell prev_hook else pure tt) t ≡ (ok tt, w')
      → AnsweredByPostgres w w' ⊎ AnsweredByDuckdb e Cell w.events w'.events
  finished true w t w' (ws, eq, few) h = inl (
    ws,
    ground (arith, eq, append_assoc w.events (map fallback_warning ws) (prev_hook ∷ [])),
    few,
  )
  finished false w t w' answered h = inr (rw (ap (λ x. x.1) h) at answered)

  -- A utility statement is answered once: each run of the hook that returns normally has called
  -- PostgreSQL's hook, once and last, behind at most one warning to the user; or it has put out one
  -- text of DuckDB, or sent slots between one start and one shutdown of the receiver, and has not
  -- called PostgreSQL's hook.
  pub process_utility_hook-Answered :
      (is_postmaster_environment : Bool) (dest : Dest) (query_string : Result Text)
      (stmt : UtilityStmt) (w w' : World e Cell)
      → process_utility_hook e Cell get_cell pg parse_sql duration is_postmaster_environment dest
          query_string stmt w
        ≡ (ok tt, w')
      → AnsweredByPostgres w w' ⊎ AnsweredByDuckdb e Cell w.events w'.events
  unfolding process_utility_hook
  process_utility_hook-Answered env dest q stmt w w' h =
      elim (Bool-cases (not (is_support_utility stmt) || not env)) [
        | inl c ↦ finished true w w w' (unwarned e Cell w.events) (rw c at h)
        | inr c ↦
            let (need, t, p, k) =
              bind-eq-ok (handle_utility e Cell get_cell pg parse_sql duration dest q stmt) _ w
                (rw c at h) in
            finished need w t w' (handle_utility-Handled dest q stmt w t need p) k
      ]

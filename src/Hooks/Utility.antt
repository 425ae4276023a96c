-- ===== src/Hooks/Utility.antt =====
-- src/hooks/utility.rs: the hook for the statements that are no queries.
pub mod Explain
pub mod Prepare
pub mod View
pub mod Answered
use pg_analytics.Prelude.{
  ℕ, Bool, true, false, not, ◌||◌, Option, none, some, List, [], ◌∷◌, if◌then◌else◌,
}
use pg_analytics.Text.{Text, str}
use pg_analytics.Result.{Result, error}
use pg_analytics.Exec.{Exec, pure, fail, ◌>>=◌, ◌>>◌}
use pg_analytics.Duckdb.Engine.{Engine}
use pg_analytics.Fdw.Base.{GetCell}
use pg_analytics.Hooks.World.{Postgres, World, prev_hook, emit}
use pg_analytics.Hooks.Query.{Dest}
use pg_analytics.Hooks.Utility.Explain.{Parsed, ExplainStmt, explain_query}
use pg_analytics.Hooks.Utility.Prepare.{PlanSource, execute_query, deallocate_query}
use pg_analytics.Hooks.Utility.View.{Planned, view_query}

-- The node of the statement with what the hook reads of it: the plan of a prepared statement, the
-- name of DEALLOCATE (none for ALL), the plans of a view's query.
pub data UtilityStmt : Type 0 where
  prepare_stmt : UtilityStmt
  execute_stmt : Option PlanSource → UtilityStmt
  deallocate_stmt : Option (Result Text) → UtilityStmt
  explain_stmt : ExplainStmt → UtilityStmt
  view_stmt : List Planned → UtilityStmt
  other_stmt : UtilityStmt

unfoldable pub is_support_utility : UtilityStmt → Bool
is_support_utility other_stmt = false
is_support_utility _ = true

module _ (e : Engine) (Cell : Type 0) (get_cell : GetCell e Cell) (pg : Postgres)
    (parse_sql : Text → Result (List Parsed)) (duration : Text) where
  -- The `match` on the type: whether PostgreSQL's hook has to run.
  unfoldable pub handle_utility : Dest → Result Text → UtilityStmt → Exec (World e Cell) Bool
  handle_utility dest query_string prepare_stmt = pure true
  handle_utility dest query_string (execute_stmt source) =
      execute_query e Cell get_cell pg dest query_string source
  handle_utility dest query_string (deallocate_stmt name) = deallocate_query e Cell name
  handle_utility dest query_string (explain_stmt stmt) =
      explain_query e Cell pg parse_sql duration query_string stmt
  handle_utility dest query_string (view_stmt plans) = view_query e Cell pg query_string plans
  handle_utility dest query_string other_stmt =
      fail (error (str "unexpected statement type in utility hook"))

  unfoldable pub process_utility_hook :
      Bool → Dest → Result Text → UtilityStmt → Exec (World e Cell) Unit
  unfolding handle_utility is_support_utility
  process_utility_hook is_postmaster_environment dest query_string stmt =
      if not (is_support_utility stmt) || not is_postmaster_environment
      then emit e Cell prev_hook
      else (do
        need_exec_prev_hook ← handle_utility dest query_string stmt
        if need_exec_prev_hook then emit e Cell prev_hook else pure tt)

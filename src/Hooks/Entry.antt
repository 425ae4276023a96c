-- ===== src/Hooks/Entry.antt =====
-- src/hooks/mod.rs: the hooks that PostgreSQL calls. A failure of the extension is a panic there.
use pg_analytics.Prelude.{Bool, List}
use pg_analytics.Text.{Text}
use pg_analytics.Result.{Result}
use pg_analytics.Exec.{Exec, or_panic}
use pg_analytics.Duckdb.Engine.{Engine}
use pg_analytics.Hooks.World.{World, Postgres}
use pg_analytics.Hooks.Executor
use pg_analytics.Hooks.Utility
use pg_analytics.Fdw.Base.{GetCell}
use pg_analytics.Hooks.Query.{Dest}
use pg_analytics.Hooks.Utility.Explain.{Parsed}

module _ (e : Engine) (Cell : Type 0) (get_cell : GetCell e Cell) (pg : Postgres) where
  -- `ExtensionHook::executor_run`
  unfoldable pub executor_run_hook : Executor.QueryDesc → Exec (World e Cell) Unit
  executor_run_hook query_desc = or_panic (Executor.executor_run e Cell get_cell pg query_desc)

  module _ (parse_sql : Text → Result (List Parsed)) (duration : Text) where
    -- `ExtensionHook::process_utility_hook`
    unfoldable pub utility_hook :
        Bool → Dest → Result Text → Utility.UtilityStmt → Exec (World e Cell) Unit
    utility_hook is_postmaster_environment dest query_string stmt = or_panic (
        Utility.process_utility_hook e Cell get_cell pg parse_sql duration is_postmaster_environment
          dest query_string stmt)

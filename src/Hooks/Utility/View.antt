-- ===== src/Hooks/Utility/View.antt =====
-- src/hooks/utility/view.rs
use pg_analytics.Prelude.{Bool, true, false, not, ◌||◌, Option, List, [], ◌∷◌, if◌then◌else◌}
use pg_analytics.Text.{Text}
use pg_analytics.Result.{Result}
use pg_analytics.Exec.{Exec, pure, lift, match_result, ◌>>=◌, ◌>>◌}
use pg_analytics.Duckdb.Engine.{Engine}
use pg_analytics.Duckdb.Connection.{execute}
use pg_analytics.Hooks.World.{Postgres, CmdType, World, fallback_warning, on_globals, emit}
use pg_analytics.Hooks.Query.{
  RangeTblEntry, get_query_relations, is_duckdb_query, set_search_path_by_pg,
}
use pg_analytics.Hooks.Executor.{is_select}

-- What the hooks read of a `PlannedStmt`.
pub record Planned : Type 0 where
  pub command_type : CmdType
  pub rtable : Option (List RangeTblEntry)

-- `commandType != CMD_SELECT || !is_duckdb_query(…)`
unfoldable pub not_for_duckdb : Postgres → Planned → Bool
not_for_duckdb pg plan =
    not (is_select plan.command_type) || not (is_duckdb_query (get_query_relations pg plan.rtable))

-- Whether the loop over the plans returns early.
unfoldable pub any_not_for_duckdb : Postgres → List Planned → Bool
unfolding not_for_duckdb
any_not_for_duckdb pg [] = false
any_not_for_duckdb pg (plan ∷ plans) =
    let rest = any_not_for_duckdb pg plans in if not_for_duckdb pg plan then true else rest

module _ (e : Engine) (Cell : Type 0) (pg : Postgres) where
  -- The plans are those that PostgreSQL makes of the view's query.
  unfoldable pub view_query : Result Text → List Planned → Exec (World e Cell) Bool
  unfolding any_not_for_duckdb
  view_query query_string plans = if any_not_for_duckdb pg plans then pure true else (do
    on_globals e Cell (set_search_path_by_pg e pg)
    query ← lift query_string
    match_result (on_globals e Cell (execute e query)) (λ f. emit e Cell (fallback_warning f))
        (λ n. pure tt)
    pure true)

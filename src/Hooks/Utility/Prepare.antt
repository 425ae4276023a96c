-- ===== src/Hooks/Utility/Prepare.antt =====
-- src/hooks/utility/prepare.rs
use pg_analytics.Prelude.{Bool, true, false, not, Option, none, some, List, [], ◌∷◌, if◌then◌else◌}
use pg_analytics.Text.{Text, str, concat}
use pg_analytics.Result.{Failure, Result, panic}
use pg_analytics.Exec.{Exec, pure, fail, lift, match_result, ◌>>=◌, ◌>>◌}
use pg_analytics.Duckdb.Engine.{Engine}
use pg_analytics.Duckdb.Connection.{Globals, execute, create_arrow, clear_arrow, get_batches}
use pg_analytics.Fdw.Base.{Column, GetCell}
use pg_analytics.Hooks.World.{Postgres, World, fallback_warning, on_globals, emit}
use pg_analytics.Hooks.Query.{Dest, set_search_path_by_pg, write_batches_to_slots}
use pg_analytics.Hooks.Utility.View.{Planned, not_for_duckdb}

-- The plan source of a prepared statement: whether the path of schemas that it was planned for is
-- the current one, the first plan of the cached plan (none if there is no plan), the text of
-- PREPARE, and the columns of the result.
pub record PlanSource : Type 0 where
  pub fixed_result : Bool
  pub search_path_matches : Bool
  pub cached_plan : Option Planned
  pub query_string : Result Text
  pub result_desc : List Column

module _ (e : Engine) (Cell : Type 0) where
  abbrev conn : {A : Type 0} → Exec (Globals e) A → Exec (World e Cell) A
  conn = on_globals e Cell

  -- The stream is dropped and the user warned; PostgreSQL has to run the statement.
  abbrev pub give_up : Failure → Exec (World e Cell) Bool
  give_up f = do conn (clear_arrow e); emit e Cell (fallback_warning f); pure true

  module _ (get_cell : GetCell e Cell) (pg : Postgres) (dest : Dest) where
    -- `if need_replan { … }`; pgrx's `error!` does not return.
    abbrev pub replan : Bool → Result Text → Exec (World e Cell) Unit
    replan false query_string = pure tt
    replan true query_string = do
      prepare_stmt ← lift query_string
      match_result (conn (execute e prepare_stmt))
          (λ f. fail (panic (str "execute prepare replan error"))) (λ n. pure tt)

    abbrev pub send : List Column → Bool → Exec (World e Cell) Bool
    send attributes false = conn (clear_arrow e) >> pure false
    send attributes true = match_result (conn (get_batches e)) give_up λ batches.
        write_batches_to_slots e Cell get_cell dest attributes batches
        >> (conn (clear_arrow e) >> pure false)

    abbrev pub run_prepared : Result Text → PlanSource → Exec (World e Cell) Bool
    run_prepared source_text source = do
      conn (set_search_path_by_pg e pg)
      replan (not source.search_path_matches) source.query_string
      query ← lift source_text
      match_result (conn (create_arrow e query)) give_up (send source.result_desc)

    abbrev pub execute_plan : Result Text → PlanSource → Option Planned → Exec (World e Cell) Bool
    execute_plan source_text source none = pure true
    execute_plan source_text source (some plan) =
        if not_for_duckdb pg plan then pure true else run_prepared source_text source

    -- The plan source is none for a null pointer; the text is the one of EXECUTE.
    unfoldable pub execute_query : Result Text → Option PlanSource → Exec (World e Cell) Bool
    execute_query source_text none = pure true
    execute_query source_text (some source) =
        if not source.fixed_result
        then pure true
        else execute_plan source_text source source.cached_plan

  unfoldable pub deallocate_query : Option (Result Text) → Exec (World e Cell) Bool
  deallocate_query none = pure true
  deallocate_query (some stmt_name) = do
    name ← lift stmt_name
    match_result (conn (execute e (concat (str "DEALLOCATE \"" ∷ name ∷ str "\"" ∷ []))))
        (λ f. pure tt) (λ n. pure tt)
    pure true

-- ===== src/Hooks/Executor.antt =====
-- src/hooks/executor.rs, in a build without debug assertions.
pub mod Outcome
use pg_analytics.Prelude.{
  ℕ, Bool, true, false, not, ◌||◌, Option, none, some, List, [], ◌∷◌, map, if◌then◌else◌,
}
use pg_analytics.Text.{Text, str, starts_with, lower}
use pg_analytics.Result.{Failure, Result}
use pg_analytics.Exec.{Exec, pure, lift, match_result, ◌>>=◌, ◌>>◌}
use pg_analytics.Duckdb.Engine.{Engine}
use pg_analytics.Duckdb.Connection.{Globals, create_arrow, clear_arrow, get_batches}
use pg_analytics.Fdw.Base.{Column, GetCell}
use pg_analytics.Hooks.World.{
  Postgres, CmdType, cmd_select, cmd_other, prev_hook, fallback_warning, World, on_globals, emit,
}
use pg_analytics.Hooks.Query.{
  RangeTblEntry, Dest, get_current_query, get_query_relations, is_duckdb_query,
  set_search_path_by_pg, write_batches_to_slots,
}

-- What the hook reads of a `QueryDesc` and of its planned statement.
pub record QueryDesc : Type 0 where
  pub operation : CmdType
  pub rtable : Option (List RangeTblEntry)
  pub stmt_location : Option ℕ
  pub stmt_len : ℕ
  pub source_text : Result Text
  pub attributes : List Column
  pub dest : Dest

unfoldable pub is_select : CmdType → Bool
is_select cmd_select = true
is_select cmd_other = false

abbrev is_null {ℓ} : {A : Type ℓ} → Option A → Bool
is_null none = true
is_null (some a) = false

-- `query.to_lowercase().starts_with(word)` for an ASCII word without `i` and `k`, which no other
-- character becomes in lower case.
unfoldable pub begins_with_word : Text → Text → Bool
unfolding lower starts_with
begins_with_word word query = starts_with word (map lower query)

-- The test for the queries that PostgreSQL runs by itself.
unfoldable pub is_left_to_postgres : Postgres → QueryDesc → Text → Bool
unfolding is_select begins_with_word
is_left_to_postgres pg query_desc query =
    is_null query_desc.rtable
    || not (is_select query_desc.operation)
    || not (is_duckdb_query (get_query_relations pg query_desc.rtable))
    || begins_with_word (str "copy") query
    || begins_with_word (str "create") query
    || begins_with_word (str "prepare") query

module _ (e : Engine) (Cell : Type 0) (get_cell : GetCell e Cell) (pg : Postgres) where
  abbrev W : Type 0 → Type 0
  W = Exec (World e Cell)

  abbrev conn : {A : Type 0} → Exec (Globals e) A → W A
  conn = on_globals e Cell

  -- The stream is dropped, the user warned, and PostgreSQL runs the query.
  abbrev fall_back : Failure → W Unit
  fall_back f = do conn (clear_arrow e); emit e Cell (fallback_warning f); emit e Cell prev_hook

  abbrev after_arrow : QueryDesc → Bool → W Unit
  after_arrow query_desc false = conn (clear_arrow e)
  after_arrow query_desc true = match_result (conn (get_batches e)) fall_back λ batches.
      write_batches_to_slots e Cell get_cell query_desc.dest query_desc.attributes batches
      >> conn (clear_arrow e)

  unfoldable pub executor_run : QueryDesc → W Unit
  executor_run query_desc = do
    query ←
        lift (get_current_query query_desc.stmt_location query_desc.stmt_len query_desc.source_text)
    if is_left_to_postgres pg query_desc query then emit e Cell prev_hook else (do
      conn (set_search_path_by_pg e pg)
      match_result (conn (create_arrow e query)) fall_back (after_arrow query_desc))

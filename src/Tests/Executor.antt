-- ===== src/Tests/Executor.antt =====
-- src/hooks/executor.rs: a query on a foreign table that DuckDB answers.
use pg_analytics.Prelude.{ℕ, true, false, none, some, [], ◌∷◌, ◌≡◌, refl}
use pg_analytics.Text.{Text, str, same, concat, join}
use pg_analytics.Result.{ok}
use pg_analytics.Fdw.Handler.{from_name, is_other}
use pg_analytics.Duckdb.Connection.{
  create_arrow, get_batches, clear_arrow, get_available_schemas, set_search_path,
}
use pg_analytics.Hooks.World.{Postgres, World, cmd_select}
use pg_analytics.Hooks.Query.{
  get_current_query, get_query_relations, is_duckdb_query, set_search_path_by_pg,
  write_batches_to_slots, fill_slot,
}
use pg_analytics.Hooks.Query.Slots.{all_slots, complete_dest, delivered}
use pg_analytics.Hooks.Executor.{QueryDesc, is_left_to_postgres, executor_run}
use pg_analytics.Hooks.Executor.Outcome.{Outcome, executor_run-Outcome, executor_run_pushed}
use pg_analytics.Duckdb.Connection.{Globals}
use pg_analytics.Tests.Toy.{toy, read_number, no_session, number_column}

abbrev pub foreign_only : Postgres
foreign_only = record {
  relation = λ oid. record { is_foreign_table = true; handler_name = str "csv_fdw_handler" };
  search_path = some (str "public") ∷ none ∷ [];
}

abbrev pub sum_query : Text
sum_query = str "SELECT sum(n) FROM t"

abbrev sum_desc : QueryDesc
sum_desc = record {
  operation = cmd_select;
  rtable = some (record { is_relation = true; relid = 16384 } ∷ []);
  stmt_location = none;
  stmt_len = 0;
  source_text = ok sum_query;
  attributes = number_column;
  dest = complete_dest;
}

abbrev pub before : World toy ℕ
before = record { globals = no_session; es_processed = 0; events = [] }

-- The session after the search path was set: no schema of PostgreSQL is one of DuckDB.
abbrev path_is_set : Globals toy
path_is_set = record { db = str "SET search_path TO ''" ∷ []; statement = none; arrow = none }

abbrev after : World toy ℕ
after =
    delivered toy ℕ read_number number_column ((some 1 ∷ []) ∷ (some 2 ∷ []) ∷ (some 3 ∷ []) ∷ [])
      (record before { globals = path_is_set })

asks_duckdb : is_left_to_postgres foreign_only sum_desc sum_query ≡ false
unfolding is_left_to_postgres is_duckdb_query get_query_relations from_name is_other str same
asks_duckdb = refl

sets_path : set_search_path_by_pg toy foreign_only no_session ≡ (ok tt, path_is_set)
unfolding set_search_path_by_pg get_available_schemas set_search_path str concat join
sets_path = refl

three_slots :
    all_slots toy ℕ read_number number_column ((1 ∷ 2 ∷ []) ∷ (3 ∷ []) ∷ [])
    ≡ ok ((some 1 ∷ []) ∷ (some 2 ∷ []) ∷ (some 3 ∷ []) ∷ [])
unfolding all_slots fill_slot
three_slots = refl

executor_run_pushed_example :
    executor_run toy ℕ read_number foreign_only sum_desc before ≡ (ok tt, after)
unfolding get_current_query
executor_run_pushed_example =
    executor_run_pushed toy ℕ read_number foreign_only sum_desc sum_query before path_is_set
      sum_query ((1 ∷ 2 ∷ []) ∷ (3 ∷ []) ∷ []) (str "SET search_path TO ''" ∷ [])
      ((some 1 ∷ []) ∷ (some 2 ∷ []) ∷ (some 3 ∷ []) ∷ []) refl asks_duckdb sets_path refl refl
      three_slots refl

-- The run itself, by computation.
sum_query_run : executor_run toy ℕ read_number foreign_only sum_desc before ≡ (ok tt, after)
unfolding executor_run get_current_query is_left_to_postgres is_duckdb_query get_query_relations
    from_name is_other str same set_search_path_by_pg get_available_schemas set_search_path
    create_arrow get_batches clear_arrow write_batches_to_slots concat join
sum_query_run = refl

executor_run-Outcome_example :
    Outcome toy ℕ read_number foreign_only sum_desc sum_query before after
unfolding get_current_query
executor_run-Outcome_example =
    executor_run-Outcome toy ℕ read_number foreign_only sum_desc sum_query before after refl
      sum_query_run

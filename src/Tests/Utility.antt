-- ===== src/Tests/Utility.antt =====
-- src/hooks/utility.rs: EXPLAIN of a query on a foreign table.
use pg_analytics.Prelude.{List, ℕ, true, some, [], ◌∷◌, ◌≡◌, refl, ◌⊎◌}
use pg_analytics.Text.{Text, str, same, concat}
use pg_analytics.Result.{Result, ok}
use pg_analytics.Fdw.Handler.{from_name, is_other}
use pg_analytics.Hooks.World.{World, cmd_select}
use pg_analytics.Hooks.World as Events
use pg_analytics.Hooks.Query.{get_query_relations, is_duckdb_query}
use pg_analytics.Hooks.Query.Slots.{complete_dest}
use pg_analytics.Hooks.Executor.{is_select}
use pg_analytics.Hooks.Utility.{
  UtilityStmt, explain_stmt, is_support_utility, handle_utility, process_utility_hook,
}
use pg_analytics.Hooks.Utility.View.{not_for_duckdb}
use pg_analytics.Hooks.Utility.Explain.{Parsed, explain, explain_query}
use pg_analytics.Hooks.Utility.Answered.{AnsweredByDuckdb}
use pg_analytics.Hooks.Utility.Explain.{DefElem, parse_explain_options}
use pg_analytics.Hooks.Utility.Explain.Options.{IsKnown, parse_explain_options_iff}
use pg_analytics.Result.{IsOk}
use pg_analytics.Prelude.{All, ◌↔◌, false}
use pg_analytics.Hooks.Utility.Answered.Once.{AnsweredByPostgres, process_utility_hook-Answered}
use pg_analytics.Tests.Toy.{toy, read_number, no_session}
use pg_analytics.Tests.Executor.{foreign_only, sum_query, before}

abbrev parse_sql : Text → Result (List Parsed)
parse_sql text = ok (explain sum_query ∷ [])

abbrev explain_sum : UtilityStmt
explain_sum = explain_stmt (record {
  query = record {
    command_type = cmd_select;
    rtable = some (record { is_relation = true; relid = 16384 } ∷ []);
  };
  options = [];
})

abbrev after : World toy ℕ
after = record {
  globals = no_session;
  es_processed = 0;
  events =
      Events.text_begun
      ∷ Events.text_output (concat (str "DuckDB Scan: " ∷ sum_query ∷ str "\n" ∷ []))
      ∷ [];
}

explained :
    process_utility_hook toy ℕ read_number foreign_only parse_sql
      (str "0.1")
      true
      complete_dest
      (ok (str "EXPLAIN SELECT sum(n) FROM t"))
      explain_sum
      before
    ≡ (ok tt, after)
unfolding process_utility_hook is_support_utility handle_utility explain_query not_for_duckdb
    is_duckdb_query get_query_relations from_name is_other str same is_select concat
explained = refl

process_utility_hook-Answered_example :
    AnsweredByPostgres toy ℕ read_number foreign_only parse_sql (str "0.1") before after
    ⊎ AnsweredByDuckdb toy ℕ before.events after.events
process_utility_hook-Answered_example =
    process_utility_hook-Answered toy ℕ read_number foreign_only parse_sql (str "0.1") true
      complete_dest (ok (str "EXPLAIN SELECT sum(n) FROM t")) explain_sum before after explained

abbrev analyze_in_duckdb : List DefElem
analyze_in_duckdb =
    record { defname = ok (str "analyze"); boolean = ok true; string = ok (str "true") }
    ∷ record { defname = ok (str "style"); boolean = ok false; string = ok (str "duckdb") }
    ∷ []

parse_explain_options_iff_example :
    IsOk (parse_explain_options analyze_in_duckdb) ↔ All IsKnown analyze_in_duckdb
parse_explain_options_iff_example = parse_explain_options_iff analyze_in_duckdb

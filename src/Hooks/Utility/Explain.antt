-- ===== src/Hooks/Utility/Explain.antt =====
-- src/hooks/utility/explain.rs
pub mod Options
use pg_analytics.Prelude.{
  Bool, true, false, Option, none, some, List, [], ◌∷◌, ◌++◌, any, if◌then◌else◌, ◌==◌,
}
use pg_analytics.Text.{Text, str, same, concat}
use pg_analytics.Result.{Result, ok, err, error, panic, ◌>>=◌ as bind_result}
use pg_analytics.Exec.{Exec, pure, lift, ◌>>=◌, ◌>>◌}
use pg_analytics.Duckdb.Engine.{Engine}
use pg_analytics.Duckdb.Connection.{execute, execute_explain}
use pg_analytics.Hooks.World.{Postgres, World, text_begun, text_output, on_globals, emit}
use pg_analytics.Hooks.Query.{set_search_path_by_pg}
use pg_analytics.Hooks.Utility.View.{Planned, not_for_duckdb}

pub data Style : Type 0 where
  postgres duckdb : Style

pub record ExplainState : Type 0 where
  pub analyze : Bool
  pub style : Style

-- An option of EXPLAIN: its name, and its value as `defGetBoolean` and `defGetString` give it, which
-- may raise an error.
pub record DefElem : Type 0 where
  pub defname : Result Text
  pub boolean : Result Bool
  pub string : Result Text

pub record ExplainStmt : Type 0 where
  pub query : Planned
  pub options : List DefElem

-- A statement as `sqlparser` reads it: EXPLAIN with the text of the explained one, or another.
pub data Parsed : Type 0 where
  explain : Text → Parsed
  other_statement : Parsed

unfoldable pub parse_explain_style : Text → Option Style
parse_explain_style style =
    if same style (str "pg")
    then some postgres
    else if same style (str "postgres")
    then some postgres
    else if same style (str "duckdb")
    then some duckdb
    else none

abbrev with_style : ExplainState → Option Style → Text → Result ExplainState
with_style state (some style) text = ok (record state { style = style })
with_style state none text = err (panic (concat (str "unrecognized STYLE option: " ∷ text ∷ [])))

-- `error!`: what cannot be read, or is not known, is a panic.
abbrev orelse_panic {ℓ} : {A : Type ℓ} → Result A → Text → Result A
orelse_panic (ok a) message = ok a
orelse_panic (err f) message = err (panic message)

-- The body of the loop.
unfoldable pub explain_option : ExplainState → DefElem → Result ExplainState
unfolding parse_explain_style
explain_option state opt =
    bind_result (orelse_panic opt.defname (str "failed to parse EXPLAIN option name")) λ opt_name.
      if same opt_name (str "analyze")
      then bind_result opt.boolean (λ b. ok (record state { analyze = b }))
      else if same opt_name (str "style")
      then bind_result (orelse_panic opt.string (str "failed to parse STYLE option"))
          (λ s. with_style state (parse_explain_style s) s)
      else err (panic (concat (str "unrecognized EXPLAIN option \"" ∷ opt_name ∷ str "\"" ∷ [])))

unfoldable pub explain_options : ExplainState → List DefElem → Result ExplainState
unfolding explain_option
explain_options state [] = ok state
explain_options state (opt ∷ opts) =
    bind_result (explain_option state opt) (λ s. explain_options s opts)

unfoldable pub parse_explain_options : List DefElem → Result ExplainState
unfolding explain_options
parse_explain_options options =
    explain_options (record { analyze = false; style = postgres }) options

abbrev first_explained : List Parsed → Text → Result Text
first_explained [] query_string = err (panic (str "index out of bounds"))
first_explained (explain statement ∷ utility) query_string = ok statement
first_explained (other_statement ∷ utility) query_string =
    err (error (concat (str "unexpected utility statement: " ∷ query_string ∷ [])))

module _ (e : Engine) (Cell : Type 0) (pg : Postgres) (parse_sql : Text → Result (List Parsed))
    (duration : Text) where
  unfoldable pub parse_query_from_utility_stmt : Result Text → Result Text
  parse_query_from_utility_stmt query_string =
      bind_result query_string
        λ text. bind_result (parse_sql text) λ utility. first_explained utility text

  -- ANALYZE in PostgreSQL's style runs the query; `duration` is the time that it took, as it is
  -- written out.
  abbrev run_analyzed : Text → Bool → Exec (World e Cell) Text
  run_analyzed query false = pure []
  run_analyzed query true = do
    on_globals e Cell (set_search_path_by_pg e pg)
    on_globals e Cell (execute e query)
    pure (concat (str "Execution Time: " ∷ duration ∷ str " ms\n" ∷ []))

  abbrev explained : Bool → Text → Text
  explained true query = concat (str "EXPLAIN ANALYZE " ∷ query ∷ [])
  explained false query = concat (str "EXPLAIN " ∷ query ∷ [])

  unfoldable pub explain_output : ExplainState → Text → Exec (World e Cell) Text
  explain_output state query = elim state.style [
    | postgres ↦ do
      time ← run_analyzed query state.analyze
      pure (concat (str "DuckDB Scan: " ∷ query ∷ str "\n" ∷ []) ++ time)
    | duckdb ↦ do
      on_globals e Cell (set_search_path_by_pg e pg)
      on_globals e Cell (execute_explain e (explained state.analyze query))
  ]

  -- `CString::new`, which refuses a text with a zero.
  abbrev c_string : Text → Result Text
  c_string output =
      if any (λ c. c == 0) output
      then err (error (str "nul byte found in provided data"))
      else ok output

  abbrev explain_pushed : Result Text → ExplainStmt → Exec (World e Cell) Bool
  explain_pushed query_string stmt = do
    state ← lift (parse_explain_options stmt.options)
    query ← lift (parse_query_from_utility_stmt query_string)
    output ← explain_output state query
    emit e Cell text_begun
    output_cstr ← lift (c_string output)
    emit e Cell (text_output output_cstr)
    pure false

  unfoldable pub explain_query : Result Text → ExplainStmt → Exec (World e Cell) Bool
  unfolding parse_explain_options parse_query_from_utility_stmt explain_output
  explain_query query_string stmt =
      if not_for_duckdb pg stmt.query then pure true else explain_pushed query_string stmt

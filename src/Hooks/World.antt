-- ===== src/Hooks/World.antt =====
-- What the hooks act on: the DuckDB session, and the effects on PostgreSQL as a list of events.
use pg_analytics.Prelude.{ℕ, Bool, Option, List, [], ◌∷◌, ◌++◌}
use pg_analytics.Text.{Text}
use pg_analytics.Result.{Failure}
use pg_analytics.Exec.{Exec, modify, zoom}
use pg_analytics.Duckdb.Engine.{Engine}
use pg_analytics.Duckdb.Connection.{Globals}

-- A relation of PostgreSQL, as `PgRelation` and the system catalog show it: whether it is a foreign
-- table, and the name of the handler function of its server's wrapper.
pub record Relation : Type 0 where
  pub is_foreign_table : Bool
  pub handler_name : Text

-- What the hooks read of PostgreSQL's catalog.
pub record Postgres : Type 0 where
  -- `RelationIdGetRelation`
  pub relation : ℕ → Relation
  -- The names of the schemas of `fetch_search_path`, none for one that the cache has not.
  pub search_path : List (Option Text)

pub data CmdType : Type 0 where
  cmd_select cmd_other : CmdType

module _ (e : Engine) (Cell : Type 0) where
  -- A tuple slot: for each attribute the cell whose datum `into_datum` is written to it, if there is
  -- one, or none where the slot's flag for NULL is set.
  abbrev pub Slot : Type 0
  Slot = List (Option Cell)

  -- The effects, in order: PostgreSQL's own hook was called, a receiver was started, got a slot or
  -- was shut down, an output of text was begun, text was put out, the user was warned that PostgreSQL runs the query.
  pub data Event : Type 0 where
    prev_hook startup shutdown text_begun : Event
    receive : Slot → Event
    text_output : Text → Event
    fallback_warning : Failure → Event

  pub record World : Type 0 where
    pub globals : Globals e
    pub es_processed : ℕ
    pub events : List Event

  abbrev pub on_globals : {A : Type 0} → Exec (Globals e) A → Exec World A
  on_globals = zoom (λ w. w.globals) (λ g w. record w { globals = g })

  abbrev pub emit : Event → Exec World Unit
  emit event = modify (λ w. record w { events = w.events ++ event ∷ [] })

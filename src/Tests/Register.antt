-- ===== src/Tests/Register.antt =====
-- src/fdw/base.rs: a view that is registered twice.
use pg_analytics.Prelude.{[], ◌∷◌, ◌≡◌, refl, ap, sym}
use pg_analytics.Text.{str, same, concat}
use pg_analytics.Result.{ok}
use pg_analytics.Options.{OptionMap, get}
use pg_analytics.Duckdb.Connection.{Globals, execute, view_exists}
use pg_analytics.Duckdb.Connection as Connection
use pg_analytics.Duckdb.Delta as Delta
use pg_analytics.Fdw.Handler.{delta}
use pg_analytics.Fdw.Register.{register_duckdb_view}
use pg_analytics.Fdw.Register.Plan.{Creates, register_duckdb_view_again}
use pg_analytics.Tests.Toy.{toy, no_session}

abbrev pub delta_map : OptionMap
delta_map = (str "files", str "/data/t") ∷ []

abbrev pub registered : Globals toy
registered = (register_duckdb_view toy (str "t") (str "main") delta_map [] delta no_session).1

-- The statements that the first registration runs, the last one first.
registered_statements :
    registered.db
    ≡ str "CREATE VIEW IF NOT EXISTS main.t AS SELECT * FROM delta_scan('/data/t')"
      ∷ str "CREATE SCHEMA IF NOT EXISTS main"
      ∷ []
unfolding register_duckdb_view str pg_analytics.Options.is_empty view_exists execute
    Connection.create_delta_view Delta.create_view get same Delta.as_ref concat
registered_statements = refl

pub registers :
    register_duckdb_view toy (str "t") (str "main") delta_map [] delta no_session
    ≡ (ok tt, registered)
unfolding register_duckdb_view str pg_analytics.Options.is_empty view_exists execute
    Connection.create_delta_view Delta.create_view get same Delta.as_ref
registers = refl

toy-Creates : Creates toy (str "t") (str "main") delta_map delta
unfolding execute view_exists
toy-Creates g g' stmt n built run = rw (sym (ap (λ x. x.1) run)) refl

register_duckdb_view_again_example :
    register_duckdb_view toy (str "t") (str "main") delta_map [] delta registered
    ≡ (ok tt, registered)
register_duckdb_view_again_example =
    register_duckdb_view_again toy (str "t") (str "main") delta_map delta no_session registered
      toy-Creates registers

-- ===== src/Fdw/Trigger/Columns.antt =====
-- src/fdw/trigger.rs: the columns that a new foreign table gets.
use pg_analytics.Prelude.{
  ℕ, Bool, true, false, Option, some, List, [], ◌∷◌, map, ◌≡◌, refl, arith, if◌then◌else◌,
}
use pg_analytics.Text.{Text, str, concat, join}
use pg_analytics.Result.{Result, ok, ◌>>=◌}
use pg_analytics.Options.{OptionMap, get}
use pg_analytics.Duckdb.Engine.{Engine}
use pg_analytics.Duckdb.Connection.{Globals, execute, prepare, query, unwrap_all, get_text}
use pg_analytics.Fdw.Handler.{is_other}
use pg_analytics.Fdw.Register.{register_duckdb_view}
use pg_analytics.Fdw.Validate.{contains}
use pg_analytics.Fdw.Trigger.{
  Creation, Trigger, duckdb_reserved_names, duckdb_type_to_pg, column_definitions,
  construct_alter_table_statement, is_true, described, auto_create_schema,
}

-- Each column of DuckDB, a name and a type, is converted to the type beside it.
abbrev pub Converted : List (Text × Text) → List Text → Type 0
Converted [] [] = Unit
Converted [] (t ∷ ts) = ⊥
Converted (c ∷ cs) [] = ⊥
Converted ((name, kind) ∷ cs) (t ∷ ts) = (duckdb_type_to_pg name kind ≡ ok t) × Converted cs ts

module _ (quote_identifier : Text → Text) where
  -- The columns as ALTER TABLE adds them: the name, quoted if its case is preserved, and the type.
  abbrev pub additions : Bool → List (Text × Text) → List Text → List Text
  additions preserve_casing [] ts = []
  additions preserve_casing (c ∷ cs) [] = []
  additions preserve_casing ((name, kind) ∷ cs) (t ∷ ts) =
      concat (
        str "ADD COLUMN "
        ∷ (if preserve_casing then quote_identifier name else name)
        ∷ str " "
        ∷ t
        ∷ [])
      ∷ additions preserve_casing cs ts

  abbrev pub alter_table : Text → Text → List Text → Text
  alter_table schema_name table_name parts = concat (
      str "ALTER TABLE "
      ∷ quote_identifier schema_name
      ∷ str "."
      ∷ quote_identifier table_name
      ∷ str " "
      ∷ join (str ", ") parts
      ∷ [])

  column_definitions-additions :
      (preserve_casing : Bool) (cs : List (Text × Text)) (ts : List Text)
      → Converted cs ts
      → column_definitions quote_identifier preserve_casing cs
        ≡ ok (additions preserve_casing cs ts)
  unfolding column_definitions
  column_definitions-additions p [] [] h = refl
  column_definitions-additions p [] (t ∷ ts) h = absurd h
  column_definitions-additions p (c ∷ cs) [] h = absurd h
  column_definitions-additions p ((name, kind) ∷ cs) (t ∷ ts) (e, h) =
      ground (arith, e, column_definitions-additions p cs ts h)

  construct-alter_table :
      (s t : Text) (p : Bool) (cs : List (Text × Text)) (ts : List Text)
      → Converted cs ts
      → construct_alter_table_statement quote_identifier s t cs p
        ≡ ok (alter_table s t (additions p cs ts))
  unfolding construct_alter_table_statement
  construct-alter_table s t p cs ts h = rw (column_definitions-additions p cs ts h) refl

  module _ (e : Engine) (spi_run : Text → Result (Unit {0})) where
    -- A row of `DESCRIBE`.
    abbrev pub described_row : Text × Text → Result (List (Option Text))
    described_row (name, kind) = ok (some name ∷ some kind ∷ [])

    described_rows :
        (cs : List (Text × Text))
        → unwrap_all (map (λ row. row >>= described e) (map described_row cs)) ≡ ok cs
    unfolding unwrap_all described get_text
    described_rows [] = refl
    described_rows (c ∷ cs) = rw (described_rows cs) refl

    -- The trigger for a new table without columns, of this extension and with a name that is allowed:
    -- if DuckDB drops the stale view, the table's options can be read, the view is registered, and
    -- DuckDB describes it by columns, at least one, that are all converted, then PostgreSQL runs
    -- exactly one statement, which adds all of DuckDB's columns, in order, with the converted types
    -- and with the names quoted if the table asks to preserve their case; and the trigger ends as
    -- that statement does.
    pub auto_create_schema-additions :
        (c : Creation) (t : Trigger e) (schema_name table_name : Text) (table_options : OptionMap)
        (dropped : ℕ) (g g' : Globals e) (stmt : e.Stmt) (col : Text × Text)
        (cols : List (Text × Text)) (types : List Text)
        → c.is_event_trigger ≡ true
        → c.is_create_foreign_table ≡ true
        → is_other c.handler ≡ false
        → c.schema_name ≡ ok schema_name
        → c.table_name ≡ ok table_name
        → contains duckdb_reserved_names table_name ≡ false
        → c.columns ≡ 0
        → execute e
            (concat (str "DROP VIEW IF EXISTS " ∷ schema_name ∷ str "." ∷ table_name ∷ []))
            t.globals
          ≡ (ok dropped, g)
        → c.table_options ≡ ok table_options
        → register_duckdb_view e table_name schema_name table_options c.user_mapping_options
            c.handler g
          ≡ (ok tt, g')
        → prepare e (concat (str "DESCRIBE " ∷ schema_name ∷ str "." ∷ table_name ∷ [])) g'
          ≡ (ok stmt, g')
        → query e stmt g' ≡ (ok (map described_row (col ∷ cols)), g')
        → Converted (col ∷ cols) types
        → let sql = alter_table schema_name table_name (
            additions (is_true e (get table_options (str "preserve_casing"))) (col ∷ cols) types) in
          auto_create_schema e quote_identifier spi_run c t
          ≡ (spi_run sql, record { globals = g'; spi = sql ∷ t.spi })
    unfolding auto_create_schema
    auto_create_schema-additions c t s n m dropped g g' stmt col cols types a b h es en free
          zero_columns drop mo reg prep q conv =
        rw
          (
            a,
            b,
            h,
            es,
            en,
            free,
            zero_columns,
            drop,
            mo,
            reg,
            prep,
            q,
            described_rows (col ∷ cols),
            construct-alter_table s n (is_true e (get m (str "preserve_casing"))) (col ∷ cols) types
                conv,
          )
          refl

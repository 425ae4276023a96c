-- ===== src/Hooks/Executor/Outcome.antt =====
-- src/hooks/executor.rs: each query is run once, by PostgreSQL or by DuckDB.
use pg_analytics.Prelude.{
  Bool, true, false, Option, none, some, List, [], ◌∷◌, ◌++◌, ◌≡◌, refl, ◌⊎◌, arith, inl, inr, ap,
  sym, ◌∙◌, append_assoc, Bool-cases,
}
use pg_analytics.Text.{Text}
use pg_analytics.Result.{Failure, ok, err, error, panic, Result-cases}
use pg_analytics.Exec.{match_result, bind-eq-ok, ◌>>◌}
use pg_analytics.Duckdb.Engine.{Engine}
use pg_analytics.Duckdb.Connection.{Globals, create_arrow, clear_arrow, get_batches}
use pg_analytics.Fdw.Base.{GetCell}
use pg_analytics.Hooks.World.{Postgres, Slot, prev_hook, fallback_warning, World, on_globals}
use pg_analytics.Hooks.Query.{get_current_query, set_search_path_by_pg, write_batches_to_slots}
use pg_analytics.Hooks.Query.Slots.{
  all_slots, delivered, complete_dest, write_batches_to_slots_ok, write_batches_to_slots_inv,
}
use pg_analytics.Hooks.Executor.{
  QueryDesc, is_left_to_postgres, fall_back, after_arrow, executor_run,
}

module _ (e : Engine) (Cell : Type 0) (get_cell : GetCell e Cell) (pg : Postgres) where
  open e use {Db, Stmt, Batch}

  -- The session without a statement and a stream, over a database.
  abbrev pub idle : Db → Globals e
  idle db = record { db = db; statement = none; arrow = none }

  -- DuckDB did not answer the query: it did not prepare it, or the statement did not start.
  abbrev pub Refused : Text → Globals e → Failure → Db → Type 0
  Refused query g f db =
      ((e.prepare query g.db ≡ err f) × (db ≡ g.db))
      ⊎ ((stmt : Stmt) × (e.prepare query g.db ≡ ok stmt) × (e.query_arrow stmt g.db ≡ (err f, db)))

  -- DuckDB's answer to the query, on the session `g`: the batches of the statement.
  abbrev pub Answered : Text → Globals e → List Batch → Db → Type 0
  Answered query g batches db =
      (stmt : Stmt) × (e.prepare query g.db ≡ ok stmt)
      × (e.query_arrow stmt g.db ≡ (ok batches, db))

  -- How a run that asked DuckDB, on the session `g`, has changed the world. Either DuckDB refused
  -- the query, the user was warned of that failure and PostgreSQL ran the query; or every row of the
  -- batches that DuckDB answered with was sent, and PostgreSQL did not run the query. No statement
  -- and no stream is kept.
  abbrev pub Asked : QueryDesc → Text → Globals e → World e Cell → World e Cell → Type 0
  Asked query_desc query g w w' =
      ((f : Failure) × (db : Db) × Refused query g f db
        × (w' ≡ record w {
          globals = idle db;
          events = w.events ++ fallback_warning f ∷ prev_hook ∷ [];
        }))
      ⊎ ((db : Db) × (batches : List Batch) × (slots : List (Slot e Cell)) × Answered query g
            batches db
          × (all_slots e Cell get_cell query_desc.attributes batches ≡ ok slots)
          × (w'
              ≡ delivered e Cell get_cell query_desc.attributes slots
                  (record w { globals = idle db })))

  -- How a run for the query has changed the world: as the test of the query says. Where DuckDB is
  -- asked, the search path of PostgreSQL was set first.
  abbrev pub Outcome : QueryDesc → Text → World e Cell → World e Cell → Type 0
  Outcome query_desc query w w' =
      ((is_left_to_postgres pg query_desc query ≡ true)
        × (w' ≡ record w { events = w.events ++ prev_hook ∷ [] }))
      ⊎ ((is_left_to_postgres pg query_desc query ≡ false)
          × ((g : Globals e) × (set_search_path_by_pg e pg w.globals ≡ (ok tt, g))
              × Asked query_desc query g w w'))

  fall_back-eq :
      (f : Failure) (w : World e Cell)
      → fall_back e Cell get_cell pg f w ≡ (
        ok tt,
        record w {
          globals = idle w.globals.db;
          events = w.events ++ fallback_warning f ∷ prev_hook ∷ [];
        },
      )
  unfolding clear_arrow
  fall_back-eq f w =
      ground (arith, append_assoc w.events (fallback_warning f ∷ []) (prev_hook ∷ []))

  fell_back :
      (query_desc : QueryDesc) (query : Text) (g : Globals e) (f : Failure) (db : Db)
      (statement : Option Stmt) (w w' : World e Cell)
      → Refused query g f db
      → fall_back e Cell get_cell pg f
          (record w { globals = record { db = db; statement = statement; arrow = g.arrow } })
        ≡ (ok tt, w')
      → Asked query_desc query g w w'
  fell_back query_desc query g f db statement w w' refused h = inl (
    f,
    db,
    refused,
    ap (λ x. x.1)
        (sym h
          ∙ fall_back-eq f
              (record w { globals = record { db = db; statement = statement; arrow = g.arrow } })),
  )

  slots_sent :
      (query_desc : QueryDesc) (query : Text) (g : Globals e) (batches : List Batch) (db : Db)
      (stmt : Stmt) (w w' : World e Cell)
      → Answered query g batches db
      → (write_batches_to_slots e Cell get_cell query_desc.dest query_desc.attributes batches
            >> on_globals e Cell (clear_arrow e))
          (record w { globals = record { db = db; statement = some stmt; arrow = some [] } })
        ≡ (ok tt, w')
      → Asked query_desc query g w w'
  unfolding clear_arrow
  slots_sent query_desc query g batches db stmt w w' answered h =
      let v : World e Cell = record w {
        globals = record { db = db; statement = some stmt; arrow = some [] };
      } in
      let (u, t, sent, dropped) =
        bind-eq-ok
          (write_batches_to_slots e Cell get_cell query_desc.dest query_desc.attributes batches) _ v
          h in
      let (slots, readable, dest) =
        write_batches_to_slots_inv e Cell get_cell query_desc.attributes query_desc.dest batches v
          (ap (λ x. x.0) sent) in
      let expected =
        write_batches_to_slots_ok e Cell get_cell query_desc.attributes batches slots v readable in
      let t-eq = ap (λ x. x.1) (sym (rw dest at sent) ∙ expected) in
      inr (db, batches, slots, answered, readable, rw (sym (ap (λ x. x.1) dropped), t-eq))

  pub create_arrow-true :
      (sql : Text) (g : Globals e) (b : Bool) → (create_arrow e sql g).0 ≡ ok b → b ≡ true
  unfolding create_arrow
  create_arrow-true sql g b h = ground arith

  Asked-duckdb :
      (query_desc : QueryDesc) (query : Text) (g : Globals e) (w w' : World e Cell)
      → match_result
          (on_globals e Cell (create_arrow e query))
          (fall_back e Cell get_cell pg)
          (after_arrow e Cell get_cell pg query_desc)
          (record w { globals = g })
        ≡ (ok tt, w')
      → Asked query_desc query g w w'
  unfolding create_arrow get_batches
  Asked-duckdb query_desc query g w w' h = elim (Result-cases (e.prepare query g.db)) [
    | inr (panic message, refused) ↦ ground (arith, h, refused)
    | inr (error message, refused) ↦
        fell_back query_desc query g (error message) g.db g.statement w w' (inl (refused, refl))
          (rw refused at h)
    | inl (stmt, prepared) ↦
        let db = (e.query_arrow stmt g.db).1 in
        elim (Result-cases (e.query_arrow stmt g.db).0) [
          | inr (panic message, refused) ↦ ground (arith, h, prepared, refused)
          | inr (error message, refused) ↦
              fell_back query_desc query g (error message) db (some stmt) w w'
                (inr (stmt, prepared, ap (λ r. (r, db)) refused)) (rw (prepared, refused) at h)
          | inl (batches, answered) ↦
              slots_sent query_desc query g batches db stmt w w'
                (stmt, prepared, ap (λ r. (r, db)) answered) (rw (prepared, answered) at h)
        ]
  ]

  -- Each run of the executor hook that returns normally, for the query that it takes from the
  -- source text. If the test leaves the query to PostgreSQL, PostgreSQL ran it and nothing else
  -- happened. If not, the search path was set, and then either DuckDB refused to prepare or to start
  -- the query, the user was warned of that failure, and PostgreSQL ran the query; or the batches that
  -- DuckDB answered the prepared query with were all sent as slots, each row once and in order,
  -- between start and shutdown of the receiver, with `es_processed` their number, and PostgreSQL did
  -- not run the query; and in both cases no statement and no stream is kept.
  pub executor_run-Outcome :
      (query_desc : QueryDesc) (query : Text) (w w' : World e Cell)
      → get_current_query query_desc.stmt_location query_desc.stmt_len query_desc.source_text
        ≡ ok query
      → executor_run e Cell get_cell pg query_desc w ≡ (ok tt, w')
      → Outcome query_desc query w w'
  unfolding executor_run
  executor_run-Outcome query_desc query w w' found h =
      elim (Bool-cases (is_left_to_postgres pg query_desc query)) [
        | inl left ↦ inl (left, sym (ap (λ x. x.1) (rw (found, left) at h)))
        | inr asked ↦
            let (u, t, path_set, k) =
              bind-eq-ok (on_globals e Cell (set_search_path_by_pg e pg)) _ w
                (rw (found, asked) at h) in
            let t-eq = ap (λ x. x.1) (sym path_set) in
            let g = (set_search_path_by_pg e pg w.globals).1 in
            inr (
              asked,
              (g, ap (λ x. (x.0, g)) path_set, Asked-duckdb query_desc query g w w' (rw t-eq at k)),
            )
      ]

  -- If the test does not leave the query to PostgreSQL, the search path is set, DuckDB prepares the
  -- query and starts its stream, every cell of its batches can be read, and the destination has its
  -- callbacks, then the hook returns normally and has sent every row.
  pub executor_run_pushed :
      (query_desc : QueryDesc) (query : Text) (w : World e Cell) (g : Globals e) (stmt : Stmt)
      (batches : List Batch) (db : Db) (slots : List (Slot e Cell))
      → get_current_query query_desc.stmt_location query_desc.stmt_len query_desc.source_text
        ≡ ok query
      → is_left_to_postgres pg query_desc query ≡ false
      → set_search_path_by_pg e pg w.globals ≡ (ok tt, g)
      → e.prepare query g.db ≡ ok stmt
      → e.query_arrow stmt g.db ≡ (ok batches, db)
      → all_slots e Cell get_cell query_desc.attributes batches ≡ ok slots
      → query_desc.dest ≡ complete_dest
      → executor_run e Cell get_cell pg query_desc w ≡ (
        ok tt,
        delivered e Cell get_cell query_desc.attributes slots
            (record w { globals = record { db = db; statement = none; arrow = none } }),
      )
  unfolding executor_run create_arrow get_batches clear_arrow
  executor_run_pushed query_desc query w g stmt batches db slots found asked path_set p q readable
        dest =
      let v : World e Cell = record w {
        globals = record { db = db; statement = some stmt; arrow = some [] };
      } in
      rw (
        found,
        asked,
        path_set,
        p,
        q,
        dest,
        write_batches_to_slots_ok e Cell get_cell query_desc.attributes batches slots v readable,
      )

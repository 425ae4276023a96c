-- ===== src/Hooks/Utility/Answered/Prepared.antt =====
-- src/hooks/utility/prepare.rs: what EXECUTE of a prepared statement has done when it returns.
use pg_analytics.Prelude.{
  Bool, true, false, not, Option, none, some, List, [], ◌∷◌, ◌≡◌, refl, arith, inl, inr, ap, sym,
  ◌∙◌, Bool-cases,
}
use pg_analytics.Text.{Text}
use pg_analytics.Result.{Failure, Result, ok}
use pg_analytics.Exec.{pure, match_result, ◌>>◌, bind-eq-ok}
use pg_analytics.Duckdb.Engine.{Engine}
use pg_analytics.Duckdb.Connection.{create_arrow, clear_arrow, get_batches}
use pg_analytics.Fdw.Base.{Column, GetCell}
use pg_analytics.Hooks.World.{Postgres, World, on_globals}
use pg_analytics.Hooks.Query.{Dest, set_search_path_by_pg, write_batches_to_slots}
use pg_analytics.Hooks.Query.Slots.{write_batches_to_slots_ok, write_batches_to_slots_inv}
use pg_analytics.Hooks.Executor.Outcome.{create_arrow-true}
use pg_analytics.Hooks.Utility.View.{Planned, not_for_duckdb}
use pg_analytics.Hooks.Utility.Prepare.{
  PlanSource, give_up, replan, send, run_prepared, execute_plan, execute_query,
}
use pg_analytics.Hooks.Utility.Answered.{
  Handled, ended, unwarned, behind_action, behind_result, behind_match,
}

module _ (e : Engine) (Cell : Type 0) where
  given_up :
      (f : Failure) (w w' : World e Cell) (b : Bool)
      → give_up e Cell f w ≡ (ok b, w')
      → Handled e Cell b w.events w'.events
  unfolding clear_arrow
  given_up f w w' b h =
      ended e Cell true b w w' (give_up e Cell f w).1 h (f ∷ [], refl, omega arith)

  module _ (get_cell : GetCell e Cell) (pg : Postgres) (dest : Dest) where
    slots_sent :
        (attributes : List Column) (batches : List e.Batch) (w w' : World e Cell) (b : Bool)
        → (write_batches_to_slots e Cell get_cell dest attributes batches
              >> (on_globals e Cell (clear_arrow e) >> pure false))
            w
          ≡ (ok b, w')
        → Handled e Cell b w.events w'.events
    unfolding clear_arrow
    slots_sent attributes batches w w' b h =
        let (u, t, p, k) =
          bind-eq-ok (write_batches_to_slots e Cell get_cell dest attributes batches) _ w h in
        let (slots, readable, complete) =
          write_batches_to_slots_inv e Cell get_cell attributes dest batches w (ap (λ x. x.0) p) in
        let sent = write_batches_to_slots_ok e Cell get_cell attributes batches slots w readable in
        let same_dest =
          ap (λ d. (write_batches_to_slots e Cell get_cell d attributes batches w).1.events)
            complete in
        let t-eq = ap (λ x. x.1.events) (sym p) ∙ (same_dest ∙ ap (λ x. x.1.events) sent) in
        ended e Cell false b w w' (on_globals e Cell (clear_arrow e) t).1 k (inr (slots, t-eq))

    sent-Handled :
        (attributes : List Column) (w w' : World e Cell) (b : Bool)
        → send e Cell get_cell pg dest attributes true w ≡ (ok b, w')
        → Handled e Cell b w.events w'.events
    sent-Handled attributes w w' b h =
        behind_match e Cell (get_batches e) _ _ w w' b h
          (λ f g k. given_up f (record w { globals = g }) w' b k)
          (λ batches g got k. slots_sent attributes batches (record w { globals = g }) w' b k)

    started-Handled :
        (attributes : List Column) (query : Text) (w w' : World e Cell) (b : Bool)
        → match_result
            (on_globals e Cell (create_arrow e query))
            (give_up e Cell)
            (send e Cell get_cell pg dest attributes)
            w
          ≡ (ok b, w')
        → Handled e Cell b w.events w'.events
    started-Handled attributes query w w' b h =
        behind_match e Cell (create_arrow e query) _ _ w w' b h
          (λ f g k. given_up f (record w { globals = g }) w' b k)
          (λ started g got k.
            sent-Handled attributes (record w { globals = g }) w' b
              (rw (create_arrow-true e Cell get_cell pg query w.globals started got) at k))

    replan-quiet :
        (need_replan : Bool) (query_string : Result Text) (w t : World e Cell) (u : Unit)
        → replan e Cell get_cell pg dest need_replan query_string w ≡ (ok u, t)
        → t.events ≡ w.events
    replan-quiet false query_string w t u h = ground arith
    replan-quiet true query_string w t u h = ground arith

    run_prepared-Handled :
        (source_text : Result Text) (source : PlanSource) (w w' : World e Cell) (b : Bool)
        → run_prepared e Cell get_cell pg dest source_text source w ≡ (ok b, w')
        → Handled e Cell b w.events w'.events
    run_prepared-Handled source_text source w w' b h =
        behind_action e Cell (set_search_path_by_pg e pg) _ w w' b h λ u g k.
          let v : World e Cell = record w { globals = g } in
          let (u', t, p, k') =
            bind-eq-ok
              (replan e Cell get_cell pg dest (not source.search_path_matches) source.query_string)
              _ v k in
          let quiet = replan-quiet (not source.search_path_matches) source.query_string v t u' p in
          rw quiet at (
            behind_result e Cell source_text _ t w' b k'
              λ query k''. started-Handled source.result_desc query t w' b k'')

    execute_plan-Handled :
        (source_text : Result Text) (source : PlanSource) (plan : Option Planned)
        (w w' : World e Cell) (b : Bool)
        → execute_plan e Cell get_cell pg dest source_text source plan w ≡ (ok b, w')
        → Handled e Cell b w.events w'.events
    execute_plan-Handled source_text source none w w' b h =
        ended e Cell true b w w' w h (unwarned e Cell w.events)
    execute_plan-Handled source_text source (some plan) w w' b h =
        elim (Bool-cases (not_for_duckdb pg plan)) [
          | inl c ↦ ended e Cell true b w w' w (rw c at h) (unwarned e Cell w.events)
          | inr c ↦ run_prepared-Handled source_text source w w' b (rw c at h)
        ]

    pub execute_query-Handled :
        (source_text : Result Text) (source : Option PlanSource) (w w' : World e Cell) (b : Bool)
        → execute_query e Cell get_cell pg dest source_text source w ≡ (ok b, w')
        → Handled e Cell b w.events w'.events
    unfolding execute_query
    execute_query-Handled source_text none w w' b h =
        ended e Cell true b w w' w h (unwarned e Cell w.events)
    execute_query-Handled source_text (some source) w w' b h =
        elim (Bool-cases source.fixed_result) [
          | inl c ↦ execute_plan-Handled source_text source source.cached_plan w w' b (rw c at h)
          | inr c ↦ ended e Cell true b w w' w (rw c at h) (unwarned e Cell w.events)
        ]

-- ===== src/Hooks/Utility/Answered.antt =====
-- src/hooks/utility.rs and its children: what a handler has done when it returns, by what it
-- emitted.
pub mod Queries
pub mod Prepared
pub mod Once
use pg_analytics.Prelude.{
  ℕ, Bool, true, false, not, ◌||◌, Option, none, some, List, [], ◌∷◌, ◌++◌, append_assoc,
  append-nil, map, length, ◌≤◌, ◌≡◌, ◌⊎◌, refl, arith, inl, inr, ap, sym, ◌∙◌, Bool-cases,
}
use pg_analytics.Text.{Text, str, concat}
use pg_analytics.Result.{Failure, Result, ok, err}
use pg_analytics.Exec.{Exec, pure, lift, match_result, ◌>>=◌, ◌>>◌, bind-eq-ok, match_result-eq-ok}
use pg_analytics.Duckdb.Engine.{Engine}
use pg_analytics.Duckdb.Connection.{Globals, execute, create_arrow, clear_arrow, get_batches}
use pg_analytics.Fdw.Base.{Column, GetCell}
use pg_analytics.Hooks.World.{
  Postgres, Slot, Event, prev_hook, startup, shutdown, receive, text_begun, text_output,
  fallback_warning, World, on_globals, emit,
}
use pg_analytics.Hooks.Query.{Dest, set_search_path_by_pg, write_batches_to_slots}
use pg_analytics.Hooks.Query.Slots.{
  all_slots, delivered, complete_dest, write_batches_to_slots_ok, write_batches_to_slots_inv,
}
use pg_analytics.Hooks.Executor.Outcome.{create_arrow-true}
use pg_analytics.Hooks.Utility.View.{Planned, not_for_duckdb, any_not_for_duckdb, view_query}
use pg_analytics.Hooks.Utility.Prepare.{
  PlanSource, give_up, replan, send, run_prepared, execute_plan, execute_query, deallocate_query,
}
use pg_analytics.Hooks.Utility.Explain.{
  Parsed, ExplainState, Style, postgres, duckdb, ExplainStmt, parse_explain_options,
  parse_query_from_utility_stmt, explain_query, explain_output,
}

module _ (e : Engine) (Cell : Type 0) where
  abbrev pub Events : Type 0
  Events = List (Event e Cell)

  -- DuckDB did not answer: at most one warning was given.
  abbrev pub Warned : Events → Events → Type 0
  Warned es es' = (ws : List Failure) × (es' ≡ es ++ map fallback_warning ws) × (length ws ≤ 1)

  -- DuckDB answered: with a text, behind the start of its output, or with slots between start and shutdown of the receiver.
  abbrev pub AnsweredByDuckdb : Events → Events → Type 0
  AnsweredByDuckdb es es' =
      ((output : Text) × (es' ≡ es ++ text_begun ∷ text_output output ∷ []))
      ⊎ ((slots : List (Slot e Cell)) × (es'
            ≡ es ++ startup ∷ (map receive slots ++ shutdown ∷ [])))

  -- What a handler that asks for PostgreSQL's hook, or does not, has done.
  abbrev pub Handled : Bool → Events → Events → Type 0
  Handled true = Warned
  Handled false = AnsweredByDuckdb

  pub ended :
      (a b : Bool) (w w' v : World e Cell)
      → Path (Result Bool × World e Cell) (ok a, v) (ok b, w')
      → Handled a w.events v.events
      → Handled b w.events w'.events
  ended a b w w' v h q =
      let eb : b ≡ a = ground arith in let ew : w' ≡ v = ap (λ x. x.1) (sym h) in rw (eb, ew) q

  pub unwarned : (es : Events) → Warned es es
  unwarned es = ([], sym (append-nil es), omega arith)

  -- An attempt on the session of which only a failure is told.
  pub attempt-Warned :
      {A : Type 0} (m : Exec (Globals e) A) (w t : World e Cell) (u : Unit)
      → match_result (on_globals e Cell m) (λ f. emit e Cell (fallback_warning f)) (λ n. pure tt) w
        ≡ (ok u, t)
      → Warned w.events t.events
  attempt-Warned m w t u h = elim (match_result-eq-ok (on_globals e Cell m) _ _ w h) [
    | inl (f, t₁, p, k) ↦ (f ∷ [], ground (arith, p, k), omega arith)
    | inr (a, t₁, p, k) ↦ ([], ground (arith, p, k, append-nil w.events), omega arith)
  ]

  pub attempt-quiet :
      {A : Type 0} (m : Exec (Globals e) A) (w t : World e Cell) (u : Unit)
      → match_result (on_globals e Cell m) (λ f. pure tt) (λ n. pure tt) w ≡ (ok u, t)
      → t.events ≡ w.events
  attempt-quiet m w t u h = elim (match_result-eq-ok (on_globals e Cell m) _ _ w h) [
    | inl (f, t₁, p, k) ↦ ground (arith, p, k)
    | inr (a, t₁, p, k) ↦ ground (arith, p, k)
  ]

  -- A handler goes on behind an action on the session, and behind a result.
  pub behind_action :
      {A : Type 0} (m : Exec (Globals e) A) (f : A → Exec (World e Cell) Bool) (w w' : World e Cell)
      (b : Bool)
      → (on_globals e Cell m >>= f) w ≡ (ok b, w')
      → ((a : A) (g : Globals e)
          → f a (record w { globals = g }) ≡ (ok b, w')
          → Handled b w.events w'.events)
      → Handled b w.events w'.events
  behind_action m f w w' b h next =
      let (a, t, p, k) = bind-eq-ok (on_globals e Cell m) f w h in
      let t-eq = ap (λ x. x.1) (sym p) in next a (m w.globals).1 (rw t-eq at k)

  pub behind_result :
      {A : Type 0} (r : Result A) (f : A → Exec (World e Cell) Bool) (w w' : World e Cell)
      (b : Bool)
      → (lift r >>= f) w ≡ (ok b, w')
      → ((a : A) → f a w ≡ (ok b, w') → Handled b w.events w'.events)
      → Handled b w.events w'.events
  behind_result r f w w' b h next =
      let (a, t, p, k) = bind-eq-ok (lift r) f w h in
      let t-eq = ap (λ x. x.1) (sym p) in next a (rw t-eq at k)

  pub behind_match :
      {A : Type 0} (m : Exec (Globals e) A) (on_err : Failure → Exec (World e Cell) Bool)
      (on_ok : A → Exec (World e Cell) Bool) (w w' : World e Cell) (b : Bool)
      → match_result (on_globals e Cell m) on_err on_ok w ≡ (ok b, w')
      → ((f : Failure) (g : Globals e)
          → on_err f (record w { globals = g }) ≡ (ok b, w')
          → Handled b w.events w'.events)
      → ((a : A) (g : Globals e)
          → (m w.globals).0 ≡ ok a
          → on_ok a (record w { globals = g }) ≡ (ok b, w')
          → Handled b w.events w'.events)
      → Handled b w.events w'.events
  behind_match m on_err on_ok w w' b h failed went =
      elim (match_result-eq-ok (on_globals e Cell m) on_err on_ok w h) [
        | inl (f, t, p, k) ↦
            let t-eq = ap (λ x. x.1) (sym p) in failed f (m w.globals).1 (rw t-eq at k)
        | inr (a, t, p, k) ↦
            let t-eq = ap (λ x. x.1) (sym p) in
            went a (m w.globals).1 (ap (λ x. x.0) p) (rw t-eq at k)
      ]

  pub attempted :
      {A : Type 0} (m : Exec (Globals e) A) (w w' : World e Cell) (b : Bool)
      → (match_result (on_globals e Cell m) (λ f. emit e Cell (fallback_warning f)) (λ n. pure tt)
            >> pure true)
          w
        ≡ (ok b, w')
      → Handled b w.events w'.events
  attempted m w w' b h =
      let (u, t, p, k) = bind-eq-ok (match_result (on_globals e Cell m) _ _) _ w h in
      ended true b w w' t k (attempt-Warned m w t u p)

  pub ignored :
      {A : Type 0} (m : Exec (Globals e) A) (w w' : World e Cell) (b : Bool)
      → (match_result (on_globals e Cell m) (λ f. pure tt) (λ n. pure tt) >> pure true) w
        ≡ (ok b, w')
      → Handled b w.events w'.events
  ignored m w w' b h =
      let (u, t, p, k) = bind-eq-ok (match_result (on_globals e Cell m) _ _) _ w h in
      ended true b w w' t k ([], attempt-quiet m w t u p ∙ sym (append-nil w.events), omega arith)

-- ===== src/Fdw/Register/Plan.antt =====
-- src/fdw/base.rs: what `register_duckdb_view` does to the database, and that a second call does
-- nothing.
use pg_analytics.Prelude.{ℕ, Bool, true, false, [], ◌≡◌, refl, arith, ap, ◌∙◌, sym}
use mathlib.Core.Path.{fun_ext}
use pg_analytics.Text.{Text, str}
use pg_analytics.Result.{Failure, Result, ok, err}
use pg_analytics.Exec.{Exec, pure, lift, ◌>>=◌, ◌>>◌, bind-eq-ok}
use pg_analytics.Options.{OptionMap, is_empty}
use pg_analytics.Duckdb.Engine.{Engine}
use pg_analytics.Duckdb.Connection.{
  Globals, execute, view_exists, install, create_csv_view, create_delta_view, create_iceberg_view,
  create_parquet_view, create_spatial_view, create_json_view,
}
use pg_analytics.Fdw.Handler.{FdwHandler, csv, iceberg, spatial}
use pg_analytics.Fdw.Wrappers.Accepted.{create_view_of}
use pg_analytics.Fdw.Register.{
  create_view_by, schema_statement, initialize_view, register_duckdb_view,
}

module _ (e : Engine) where
  -- The extension that a wrapper needs.
  abbrev pub extension_of : FdwHandler → Exec (Globals e) Unit
  extension_of iceberg = install e (str "iceberg")
  extension_of spatial = install e (str "spatial")
  extension_of _ = pure tt

  -- The extension, and the statement of the view, if it can be built.
  abbrev pub view_steps : Text → Text → OptionMap → FdwHandler → Exec (Globals e) ℕ
  view_steps t s m h = do extension_of h; built ← lift (create_view_of h t s m); execute e built

  create_view_by-eq :
      (h : FdwHandler) (t s : Text) (m : OptionMap) (g : Globals e)
      → create_view_by e h t s m g ≡ view_steps t s m h g
  unfolding create_view_by create_csv_view create_delta_view create_parquet_view create_json_view
      create_iceberg_view create_spatial_view
  create_view_by-eq csv t s m g = refl
  create_view_by-eq _ t s m g = refl

  -- If the view is there and there are no user mapping options, nothing is executed.
  register_existing :
      (t s : Text) (m : OptionMap) (h : FdwHandler) (g : Globals e)
      → view_exists e t s g ≡ (ok true, g)
      → register_duckdb_view e t s m [] h g ≡ (ok tt, g)
  unfolding register_duckdb_view is_empty
  register_existing t s m h g exists = rw exists

  view_exists_state : (t s : Text) (g : Globals e) → (view_exists e t s g).1 ≡ g
  unfolding view_exists
  view_exists_state t s g = ground arith

  -- The steps for a view that is not there: the schema, the extension, and the view's statement.
  abbrev pub plan : Text → Text → OptionMap → FdwHandler → Exec (Globals e) Unit
  plan t s m h = do execute e (schema_statement e s); view_steps t s m h; pure tt

  initialize-plan :
      (t s : Text) (m : OptionMap) (h : FdwHandler) (g : Globals e)
      → initialize_view e t s m h g ≡ plan t s m h g
  initialize-plan t s m h g = λ i.
      (execute e (schema_statement e s) >> (fun_ext (create_view_by-eq h t s m) i >> pure tt)) g

  register_absent :
      (t s : Text) (m : OptionMap) (h : FdwHandler) (g : Globals e)
      → view_exists e t s g ≡ (ok false, g)
      → register_duckdb_view e t s m [] h g ≡ plan t s m h g
  unfolding register_duckdb_view is_empty
  register_absent t s m h g exists = rw exists (ground (arith, initialize-plan t s m h g))

  -- The law that DuckDB keeps: after the statement of the view has run, the view is there.
  abbrev pub Creates : Text → Text → OptionMap → FdwHandler → Type 0
  Creates t s m h =
      (g g' : Globals e) (stmt : Text) (n : ℕ)
      → create_view_of h t s m ≡ ok stmt
      → execute e stmt g ≡ (ok n, g')
      → view_exists e t s g' ≡ (ok true, g')

  plan-Creates :
      (t s : Text) (m : OptionMap) (h : FdwHandler) (g g' : Globals e)
      → Creates t s m h
      → plan t s m h g ≡ (ok tt, g')
      → view_exists e t s g' ≡ (ok true, g')
  plan-Creates t s m h g g' creates p =
      let (n₁, g₁, e₁, p₁) = bind-eq-ok (execute e (schema_statement e s)) _ g p in
      let (n₂, g₂, e₂, p₂) = bind-eq-ok (view_steps t s m h) _ g₁ p₁ in
      let (u₃, g₃, e₃, p₃) = bind-eq-ok (extension_of h) _ g₁ e₂ in
      let (stmt, g₄, e₄, p₄) = bind-eq-ok (lift (create_view_of h t s m)) _ g₃ p₃ in
      creates g₄ g' stmt n₂ (ap (λ x. x.0) e₄) (p₄ ∙ ap (λ x. (ok n₂, x.1)) p₂)

  register_failed :
      (t s : Text) (m : OptionMap) (h : FdwHandler) (g : Globals e) (f : Failure)
      → view_exists e t s g ≡ (err f, g)
      → register_duckdb_view e t s m [] h g ≡ (err f, g)
  unfolding register_duckdb_view is_empty
  register_failed t s m h g f failed = rw failed

  shown_again :
      (t s : Text) (m : OptionMap) (h : FdwHandler) (g g' : Globals e)
      → Creates t s m h
      → (shown : Result Bool) → view_exists e t s g ≡ (shown, g)
      → register_duckdb_view e t s m [] h g ≡ (ok tt, g')
      → register_duckdb_view e t s m [] h g' ≡ (ok tt, g')
  shown_again t s m h g g' creates (ok true) shown done =
      let same_state : g ≡ g' = ap (λ x. x.1) (sym (register_existing t s m h g shown) ∙ done) in
      rw same_state at (register_existing t s m h g shown)
  shown_again t s m h g g' creates (ok false) shown done =
      register_existing t s m h g'
        (plan-Creates t s m h g g' creates (sym (register_absent t s m h g shown) ∙ done))
  shown_again t s m h g g' creates (err f) shown done = cc (register_failed t s m h g f shown)

  -- A table without user mapping options whose view was registered once is registered again without
  -- any effect on the session, if DuckDB shows a view after its statement has run.
  pub register_duckdb_view_again :
      (t s : Text) (m : OptionMap) (h : FdwHandler) (g g' : Globals e)
      → Creates t s m h
      → register_duckdb_view e t s m [] h g ≡ (ok tt, g')
      → register_duckdb_view e t s m [] h g' ≡ (ok tt, g')
  register_duckdb_view_again t s m h g g' creates done =
      shown_again t s m h g g' creates (view_exists e t s g).0
        (ap (λ x. ((view_exists e t s g).0, x)) (view_exists_state t s g)) done

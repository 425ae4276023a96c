-- ===== src/Api/Functions.antt =====
-- What parquet_schema of src/api/parquet.rs does.
use pg_analytics.Prelude.{
  ◌∙◌, arith, true, some, List, [], ◌∷◌, map, ◌≡◌, inl, inr, ap, Bool-cases, Option-cases,
}
use pg_analytics.Text.{Text, str, concat}
use pg_analytics.Result.{Result, ok, err, ◌>>=◌, Result-cases}
use pg_analytics.Exec.{pure, fail, lift, bind-eq-ok, match_result-eq-ok, panicked}
use pg_analytics.Options.{OptionMap, get}
use pg_analytics.Duckdb.Engine.{Engine}
use pg_analytics.Duckdb.Utils.{format_csv}
use pg_analytics.Duckdb.Parquet
use pg_analytics.Duckdb.Connection.{Globals, prepare, unwrap_all}
use pg_analytics.Fdw.Register.{register_duckdb_view}
use pg_analytics.Fdw.Base.Begin.{ForeignTable}
use pg_analytics.Api.Rows.{RowReader, query_map}
use pg_analytics.Api.Parquet.{
  is_parquet, registered_files, files_of, table_files, parquet_schema, parquet_schema_impl,
  parquet_schema_row, ParquetSchemaRow,
}

module _ (e : Engine) (r : RowReader e) where
  open r use {Row, rows, get_string, get_i64}
  open e use {Stmt}

  -- The columns of a row of DuckDB, by their positions, are the fields of the row that comes out.
  abbrev pub ReadsAs : Row → ParquetSchemaRow → Type 0
  ReadsAs row out =
      (get_string row 0 ≡ ok out.file_name)
      × (get_string row 1 ≡ ok out.name)
      × (get_string row 2 ≡ ok out.type_name)
      × (get_string row 3 ≡ ok out.type_length)
      × (get_string row 4 ≡ ok out.repetition_type)
      × (get_i64 row 5 ≡ ok out.num_children)
      × (get_string row 6 ≡ ok out.converted_type)
      × (get_i64 row 7 ≡ ok out.scale)
      × (get_i64 row 8 ≡ ok out.precision)
      × (get_i64 row 9 ≡ ok out.field_id)
      × (get_string row 10 ≡ ok out.logical_type)

  -- Each row of DuckDB has come out, in order.
  abbrev pub AllRead : List (Result Row) → List ParquetSchemaRow → Type 0
  AllRead [] [] = Unit
  AllRead (ok row ∷ found) (out ∷ outs) = ReadsAs row out × AllRead found outs
  AllRead found outs = ⊥

  parquet_schema_row-ReadsAs :
      (row : Row) (out : ParquetSchemaRow) → parquet_schema_row e r row ≡ ok out → ReadsAs row out
  unfolding parquet_schema_row
  parquet_schema_row-ReadsAs row out h = ground (arith, h)

  unwrap_all-AllRead :
      (found : List (Result Row)) (outs : List ParquetSchemaRow)
      → unwrap_all (map (λ row. row >>= parquet_schema_row e r) found) ≡ ok outs
      → AllRead found outs
  unfolding unwrap_all
  unwrap_all-AllRead [] [] h = tt
  unwrap_all-AllRead [] (out ∷ outs) h = ground (arith, h)
  unwrap_all-AllRead (err f ∷ found) outs h = ground (arith, h)
  unwrap_all-AllRead (ok row ∷ found) outs h = elim (Result-cases (parquet_schema_row e r row)) [
    | inr (f, unread) ↦ ground (arith, h, unread)
    | inl (first, read) ↦
        elim (Result-cases (unwrap_all (map (λ row. row >>= parquet_schema_row e r) found))) [
          | inr (f, failed) ↦ ground (arith, h, read, failed)
          | inl (rest, done) ↦
              let all : outs ≡ first ∷ rest = ground (arith, h, read, done) in
              rw all (parquet_schema_row-ReadsAs row first read, unwrap_all-AllRead found rest done)
        ]
  ]

  -- What there is of a table whose files were found.
  abbrev pub Registered : ForeignTable → OptionMap → Globals e → Globals e → Text → Type 0
  Registered table options g g' listed =
      (table_options : OptionMap) × (files : Text) × (is_parquet table.handler ≡ true)
      × (table.options ≡ ok table_options)
      × (get table_options (Parquet.as_ref Parquet.files) ≡ some files)
      × (register_duckdb_view e table.name table.namespace table_options options table.handler g
          ≡ (ok tt, g'))
      × (listed ≡ format_csv files)

  files_of-eq-ok :
      (table_options : OptionMap) (g g' : Globals e) (listed : Text)
      → files_of e r table_options g ≡ (ok listed, g')
      → (files : Text) × (get table_options (Parquet.as_ref Parquet.files) ≡ some files)
        × (g ≡ g')
        × (listed ≡ format_csv files)
  files_of-eq-ok table_options g g' listed h =
      elim (Option-cases (get table_options (Parquet.as_ref Parquet.files))) [
        | inl none_is ↦ ground (arith, h, none_is)
        | inr (files, is) ↦ (files, is, ground (arith, h, is), ground (arith, h, is))
      ]

  table_files-eq-ok :
      (table : ForeignTable) (options : OptionMap) (g g' : Globals e) (listed : Text)
      → table_files e r table options g ≡ (ok listed, g')
      → Registered table options g g' listed
  unfolding table_files
  table_files-eq-ok table options g g' listed h = elim (Bool-cases (is_parquet table.handler)) [
    | inl is ↦
        let (table_options, g1, e1, k1) =
          bind-eq-ok (lift table.options) (registered_files e r table options) g (rw is at h) in
        let (done, g2, e2, k2) =
          bind-eq-ok
            (register_duckdb_view e table.name table.namespace table_options options table.handler)
            (λ done. files_of e r table_options) g1 k1 in
        let (files, found, same_state, e3) = files_of-eq-ok table_options g2 g' listed k2 in
        let before : g ≡ g1 = ap (λ x. x.1) e1 in
        let steps =
          ap (register_duckdb_view e table.name table.namespace table_options options table.handler)
            before
          ∙ (e2 ∙ ap (λ s. (ok done, s)) same_state) in
        (table_options, files, is, ground (arith, e1), found, steps, e3)
    | inr is_not ↦ ground (arith, h, is_not)
  ]

  -- The rows are those of DuckDB for the files, and asking for them leaves the session as it is.
  abbrev pub Answered :
      ForeignTable → OptionMap → Globals e → Globals e → List ParquetSchemaRow → Type 0
  Answered table options g g' outs =
      (listed : Text) × (stmt : Stmt) × (found : List (Result Row)) × Registered table options g g'
        listed
      × (e.prepare (concat (str "SELECT * FROM parquet_schema(" ∷ listed ∷ str ")" ∷ [])) g'.db
          ≡ ok stmt)
      × (rows stmt g'.db ≡ ok found)
      × AllRead found outs

  query_map-AllRead :
      (sql : Text) (g g' : Globals e) (outs : List ParquetSchemaRow)
      → query_map e r (parquet_schema_row e r) sql g ≡ (ok outs, g')
      → (g ≡ g')
        × ((stmt : Stmt) × (found : List (Result Row)) × (e.prepare sql g'.db ≡ ok stmt)
            × (rows stmt g'.db ≡ ok found)
            × AllRead found outs)
  unfolding query_map prepare
  query_map-AllRead sql g g' outs h = elim (Result-cases (e.prepare sql g.db)) [
    | inr (f, refused) ↦ ground (arith, h, refused)
    | inl (stmt, prepared) ↦ elim (Result-cases (rows stmt g.db)) [
      | inr (f, failed) ↦ ground (arith, h, prepared, failed)
      | inl (found, given) ↦
          let done = rw (prepared, given) at h in
          let same : g ≡ g' = ap (λ x. x.1) done in
          (
            same,
            (
              stmt,
              found,
              rw (← same) prepared,
              rw (← same) given,
              unwrap_all-AllRead found outs (ap (λ x. x.0) done),
            ),
          )
    ]
  ]

  parquet_schema_impl-eq-ok :
      (table : ForeignTable) (options : OptionMap) (g g' : Globals e) (outs : List ParquetSchemaRow)
      → parquet_schema_impl e r table options g ≡ (ok outs, g')
      → Answered table options g g' outs
  unfolding parquet_schema_impl
  parquet_schema_impl-eq-ok table options g g' outs h =
      let (listed, g1, e1, k1) =
        bind-eq-ok (table_files e r table options)
          (λ listed.
            query_map e r (parquet_schema_row e r)
              (concat (str "SELECT * FROM parquet_schema(" ∷ listed ∷ str ")" ∷ [])))
          g h in
      let sql = concat (str "SELECT * FROM parquet_schema(" ∷ listed ∷ str ")" ∷ []) in
      let (same, (stmt, found, prepared, given, read)) = query_map-AllRead sql g1 g' outs k1 in
      (
        listed,
        stmt,
        found,
        table_files-eq-ok table options g g' listed (rw same at e1),
        prepared,
        given,
        read,
      )

  -- When `parquet_schema` returns rows, the table is one of the parquet wrapper with the option
  -- `files`, its view was registered, and the rows are those that DuckDB has for `parquet_schema` on its
  -- files, in the session that the registration left, which the question leaves as it is: one for
  -- each row of DuckDB, in order, with the fields read from the columns 0 to 10 as file_name, name,
  -- type_name, type_length, repetition_type, num_children, converted_type, scale, precision, field_id
  -- and logical_type.
  pub parquet_schema-eq-ok :
      (table : ForeignTable) (options : OptionMap) (g g' : Globals e) (outs : List ParquetSchemaRow)
      → parquet_schema e r table options g ≡ (ok outs, g')
      → Answered table options g g' outs
  unfolding parquet_schema
  parquet_schema-eq-ok table options g g' outs h =
      elim (match_result-eq-ok (parquet_schema_impl e r table options)
        (λ f. fail (panicked (λ m. m) f)) pure g h) [
          | inl (f, t, e1, k) ↦ ground (arith, k)
          | inr (a, t, e1, k) ↦ parquet_schema_impl-eq-ok table options g g' outs (e1 ∙ k)
        ]

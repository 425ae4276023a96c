-- ===== src/Datafusion/Schema/Cached.antt =====
-- The tables of a schema: what was checked stays, and is given again.
use pg_analytics.Prelude.{
  ℕ, Bool, true, false, some, ◌∷◌, ◌≡◌, refl, ap, All, ◌⊎◌, inl, inr, Option-cases, ==_iff,
  Bool-cases, ◌==◌, ◌∙◌, arith, [], List,
}
use pg_analytics.Text.{Text, str}
use pg_analytics.Result.{Result, ok, err, Failure, error, panic, Result-cases}
use pg_analytics.Schema.Cell.Libraries.{Libraries}
use pg_analytics.Datafusion.Options.{
  Url, TableFormat, as_str, path, extension, format, table_format_from,
}
use pg_analytics.Datafusion.Attribute.{PgTypes}
use pg_analytics.Datafusion.Provider.{Listings}
use pg_analytics.Datafusion.Register.{Stores}
use pg_analytics.Datafusion.Schema.{
  PgTable, Database, SchemaTables, table_entry, contains_url, check_fields, register_url,
  insert_table, provider_for, relation_table_options, table_of, table_impl, quoted,
  relation_server_options,
}
use mathlib.Core.Option.{some-injective}

module _ (l : Libraries) (p : PgTypes) (d : Listings) (t : Stores) (db : Database) where
  abbrev Tables : Type 0
  Tables = SchemaTables l p d t db

  -- A table of a schema was opened under a name, and its fields fit the columns that it has there.
  abbrev pub Fits : Text → ℕ × d.Provider → Type 0
  Fits schema_name (oid, provider) =
      (table_name : Text) × (relation : PgTable) × (db.open_with_name
          (quoted schema_name table_name)
        ≡ ok relation)
      × (relation.oid ≡ oid)
      × (check_fields l p d t db (d.fields provider) relation.tuple_desc ≡ ok tt)

  -- Every table of the schema fits.
  abbrev pub Checked : Tables → Type 0
  Checked s = All (Fits s.schema_name) s.tables

  All-Fits :
      (a b : Text) (ts us : List (ℕ × d.Provider))
      → b ≡ a
      → us ≡ ts
      → All (Fits a) ts
      → All (Fits b) us
  All-Fits a b ts us name tables fit = rw (tables, name) fit

  register_url-tables :
      (known : Bool) (relation : PgTable) (url : Url) (table_format : TableFormat) (s : Tables)
      → let after = (register_url l p d t db known relation url table_format s).1 in
        (after.tables ≡ s.tables) × (after.schema_name ≡ s.schema_name)
  unfolding register_url
  register_url-tables true relation url table_format s = (refl, refl)
  register_url-tables false relation url table_format s = elim (Result-cases relation.serverid) [
    | inl (serverid, e) ↦ elim (Result-cases (relation_server_options relation)) [
      | inl (o, eo) ↦ rw (e, eo) (refl, refl)
      | inr (failure, eo) ↦ rw (e, eo) (refl, refl)
    ]
    | inr (failure, e) ↦ rw e (refl, refl)
  ]

  -- What the branch of Vacant does: it leaves the tables, or adds one whose fields fit.
  insert_table-tables :
      (relation : PgTable) (location ext : Text) (table_format : TableFormat) (s : Tables)
      → let (r, after) = insert_table l p d t db relation location ext table_format s in
        (after.schema_name ≡ s.schema_name)
        × (((failure : Failure) × (r ≡ err failure) × (after.tables ≡ s.tables))
            ⊎ ((provider : d.Provider) × (r ≡ ok provider)
                × (check_fields l p d t db (d.fields provider) relation.tuple_desc ≡ ok tt)
                × (after.tables ≡ (relation.oid, provider) ∷ s.tables)))
  unfolding insert_table
  insert_table-tables relation location ext table_format s =
      elim (Result-cases (t.parse_url location)) [
        | inl (url, eu) ↦
            let known = contains_url l p d t db s.stores url in
            let (same_tables, same_name) = register_url-tables known relation url table_format s in
            elim (Result-cases (register_url l p d t db known relation url table_format s).0) [
              | inl (u, er) ↦
                  elim (Result-cases (provider_for l p d t db table_format location ext)) [
                    | inl (provider, ep) ↦
                        elim (Result-cases
                          (check_fields l p d t db (d.fields provider) relation.tuple_desc)) [
                            | inl (v, ec) ↦
                                rw (eu, er, ep, ec)
                                  (
                                    same_name,
                                    inr (
                                      provider,
                                      refl,
                                      ec,
                                      ap (λ ts. (relation.oid, provider) ∷ ts) same_tables,
                                    ),
                                  )
                            | inr (failure, ec) ↦
                                rw (eu, er, ep, ec) (same_name, inl (failure, refl, same_tables))
                          ]
                    | inr (failure, ep) ↦
                        rw (eu, er, ep) (same_name, inl (failure, refl, same_tables))
                  ]
              | inr (failure, er) ↦ rw (eu, er) (same_name, inl (failure, refl, same_tables))
            ]
        | inr (failure, eu) ↦ rw eu (refl, inl (failure, refl, refl))
      ]

  -- A call for a table that is cached gives it, and changes nothing.
  table_of-found :
      (relation : PgTable) (s after : Tables) (got provider : d.Provider)
      → (table_of l p d t db relation s).0 ≡ ok got
      → table_entry l p d t db after.tables relation.oid ≡ some provider
      → table_of l p d t db relation after ≡ (ok provider, after)
  unfolding table_of
  table_of-found relation s after got provider h found =
      elim (Result-cases (relation_table_options relation)) [
        | inl (options, eo) ↦ elim (Result-cases (t.require_option (as_str path) options)) [
          | inl (location, el) ↦ elim (Result-cases (t.require_option (as_str extension) options)) [
            | inl (ext, ee) ↦ rw (eo, el, ee, found) refl
            | inr (failure, ee) ↦ ground (arith, h, eo, el, ee)
          ]
          | inr (failure, el) ↦ ground (arith, h, eo, el)
        ]
        | inr (failure, eo) ↦ ground (arith, h, eo)
      ]

  -- How a call for an opened relation ends.
  abbrev Ended : PgTable → Tables → Result d.Provider × Tables → Type 0
  Ended relation s (r, after) =
      (after.schema_name ≡ s.schema_name)
      × (Checked s → Checked after)
      × (((failure : Failure) × (r ≡ err failure) × (after.tables ≡ s.tables))
          ⊎ ((provider : d.Provider) × (r ≡ ok provider)
              × (table_entry l p d t db after.tables relation.oid ≡ some provider)))

  insert_table-Ended :
      (table_name : Text) (relation : PgTable) (location ext : Text) (table_format : TableFormat)
      (s : Tables)
      → db.open_with_name (quoted s.schema_name table_name) ≡ ok relation
      → Ended relation s (insert_table l p d t db relation location ext table_format s)
  unfolding table_entry
  insert_table-Ended table_name relation location ext table_format s opened =
      let (same_name, ended) = insert_table-tables relation location ext table_format s in
      elim ended [
        | inl (failure, e, same_tables) ↦ (
          same_name,
          (λ checked. All-Fits _ _ _ _ same_name same_tables checked),
          inl (failure, e, same_tables),
        )
        | inr (provider, e, fit, added) ↦ (
          same_name,
          (λ checked.
              All-Fits _ _ ((relation.oid, provider) ∷ s.tables) _ same_name added
                ((table_name, relation, opened, refl, fit), checked)),
          inr (provider, e, rw (added, (==_iff relation.oid relation.oid).1 refl) refl),
        )
      ]

  table_of-Ended :
      (table_name : Text) (relation : PgTable) (s : Tables)
      → db.open_with_name (quoted s.schema_name table_name) ≡ ok relation
      → Ended relation s (table_of l p d t db relation s)
  unfolding table_of
  table_of-Ended table_name relation s opened =
      elim (Result-cases (relation_table_options relation)) [
        | inl (options, eo) ↦ elim (Result-cases (t.require_option (as_str path) options)) [
          | inl (location, el) ↦ elim (Result-cases (t.require_option (as_str extension) options)) [
            | inl (ext, ee) ↦ elim (Option-cases (table_entry l p d t db s.tables relation.oid)) [
              | inl vacant ↦
                  rw (eo, el, ee, vacant)
                    (insert_table-Ended table_name relation location ext
                      (table_format_from (t.require_option_or (as_str format) options (str ""))) s
                      opened)
              | inr (provider, found) ↦
                  rw (eo, el, ee, found) (refl, (λ checked. checked), inr (provider, refl, found))
            ]
            | inr (failure, ee) ↦
                rw (eo, el, ee) (refl, (λ checked. checked), inl (failure, refl, refl))
          ]
          | inr (failure, el) ↦ rw (eo, el) (refl, (λ checked. checked), inl (failure, refl, refl))
        ]
        | inr (failure, eo) ↦ rw eo (refl, (λ checked. checked), inl (failure, refl, refl))
      ]

  -- What is found among tables that fit, fits.
  table_entry-Fits :
      (schema_name : Text) (tables : List (ℕ × d.Provider)) (oid : ℕ) (provider : d.Provider)
      → All (Fits schema_name) tables
      → table_entry l p d t db tables oid ≡ some provider
      → Fits schema_name (oid, provider)
  unfolding table_entry
  table_entry-Fits schema_name [] oid provider fit found = ground (arith, found)
  table_entry-Fits schema_name ((o, first) ∷ rest) oid provider
        ((name, relation, opened, is, fits), fit) found =
      elim (Bool-cases (o == oid)) [
        | inl same_oid ↦
            let same_provider : first ≡ provider =
              some-injective first provider (rw same_oid at found) in
            (name, relation, opened, is ∙ (==_iff o oid).0 same_oid, rw (← same_provider) fits)
        | inr other ↦ table_entry-Fits schema_name rest oid provider fit (rw other at found)
      ]

  -- Where no two relations have one oid, and each table of a schema has fields that fit the columns
  -- of a relation that its oid belongs to, that is so after each call of table_impl. A call fails
  -- and leaves the tables as they were, or it gives a table whose fields fit the columns of the
  -- relation that the name opens, and a further call for that name gives the same table and changes
  -- nothing.
  pub table_impl-Checked :
      ((a b : Text) (r r' : PgTable)
        → db.open_with_name a ≡ ok r
        → db.open_with_name b ≡ ok r'
        → r.oid ≡ r'.oid
        → r ≡ r')
      → (table_name : Text) (s : Tables) → Checked s
      → let (r, after) = table_impl l p d t db table_name s in
        Checked after
        × (((failure : Failure) × (r ≡ err failure) × (after.tables ≡ s.tables))
            ⊎ ((relation : PgTable) × (provider : d.Provider) × (db.open_with_name
                    (quoted s.schema_name table_name)
                  ≡ ok relation)
                × (r ≡ ok provider)
                × (check_fields l p d t db (d.fields provider) relation.tuple_desc ≡ ok tt)
                × (table_impl l p d t db table_name after ≡ (ok provider, after))))
  unfolding table_impl
  table_impl-Checked unique table_name s checked =
      elim (Result-cases (db.open_with_name (quoted s.schema_name table_name))) [
        | inl (relation, eo) ↦
            let (same_name, keeps, ended) = table_of-Ended table_name relation s eo in
            elim ended [
              | inl (failure, e, same_tables) ↦ rw eo (keeps checked, inl (failure, e, same_tables))
              | inr (provider, e, found) ↦
                  let after = (table_of l p d t db relation s).1 in
                  let (name, other, opened, is, fits) =
                    table_entry-Fits after.schema_name after.tables relation.oid provider
                      (keeps checked) found in
                  let same_relation : other ≡ relation =
                    unique (quoted after.schema_name name) (quoted s.schema_name table_name) other
                      relation opened eo is in
                  rw eo (
                    keeps checked,
                    inr (
                      relation,
                      provider,
                      refl,
                      e,
                      rw (← same_relation) fits,
                      rw (same_name, eo)
                          (table_of-found relation s after provider provider e found),
                    ),
                  )
            ]
        | inr (error message, eo) ↦ rw eo (checked, inl (panic message, refl, refl))
        | inr (panic message, eo) ↦ rw eo (checked, inl (panic message, refl, refl))
      ]

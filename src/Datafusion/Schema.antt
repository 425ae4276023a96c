-- ===== src/Datafusion/Schema.antt =====
-- src/datafusion/src/datafusion/schema.rs: the tables of a schema of the session, and the options of a
-- relation of src/datafusion/src/fdw/options.rs.
pub mod Cached
use pg_analytics.Prelude.{
  ℕ, Bool, true, false, Option, none, some, List, [], ◌∷◌, any, ◌==◌, if◌then◌else◌,
}
use pg_analytics.Text.{Text, str, concat}
use pg_analytics.Result.{Result, ok, err, error, panic, ◌>>=◌ as bind_result, ◌>>◌ as first_then}
use pg_analytics.Exec.{Exec, pure, lift, gets, modify, zoom, or_panic, ◌>>=◌, ◌>>◌}
use pg_analytics.Options.{OptionMap}
use pg_analytics.Fdw.Handler.{SystemCatalog}
use pg_analytics.Schema.Cell.Libraries.{Libraries}
use pg_analytics.Datafusion.Options.{
  Url, TableFormat, plain, delta, table_format_from, as_str, path, extension, format,
}
use pg_analytics.Datafusion.Attribute.{PgTypes, PgAttribute, Field, can_convert_to_attribute}
use pg_analytics.Datafusion.Provider.{Listings, create_listing_provider}
use pg_analytics.Datafusion.Register.{
  LakeHandler, other_handler, Stores, Registry, register_object_store, handler_from_table,
}

-- A relation of PostgreSQL, with the options of its table, server and user mapping, and the server
-- that `GetForeignTable` finds.
pub record PgTable : Type 0 where
  pub oid : ℕ
  pub tuple_desc : List PgAttribute
  pub is_foreign_table : Bool
  pub foreign_table_options : Result OptionMap
  pub foreign_server_options : Result OptionMap
  pub foreign_user_mapping_options : OptionMap
  pub serverid : Result ℕ

-- `ForeignOptions::table_options`
unfoldable pub relation_table_options : PgTable → Result OptionMap
relation_table_options r = if r.is_foreign_table then r.foreign_table_options else ok []

-- `ForeignOptions::server_options`
unfoldable pub relation_server_options : PgTable → Result OptionMap
relation_server_options r = if r.is_foreign_table then r.foreign_server_options else ok []

-- `ForeignOptions::user_mapping_options`
unfoldable pub relation_user_mapping_options : PgTable → OptionMap
relation_user_mapping_options r = if r.is_foreign_table then r.foreign_user_mapping_options else []

-- PostgreSQL: its relations by their quoted names, its wrappers, and the equality of `Url`.
pub record Database : Type 0 where
  pub open_with_name : Text → Result PgTable
  pub system_catalog : SystemCatalog
  pub same_url : Url → Url → Bool

-- The name under which a table is opened.
abbrev pub quoted : Text → Text → Text
quoted schema_name table_name =
    concat (str "\"" ∷ schema_name ∷ str "\".\"" ∷ table_name ∷ str "\"" ∷ [])

-- Whether a handler is not `FdwHandler::Other`.
abbrev is_known : LakeHandler → Bool
is_known other_handler = false
is_known h = true

module _ (l : Libraries) (p : PgTypes) (d : Listings) (t : Stores) (db : Database) where
  open d use {Provider, fields}
  open t use {parse_url, require_option, require_option_or}
  open db use {open_with_name, system_catalog, same_url}

  -- `LakehouseSchemaProvider`, with the stores of the session.
  pub record SchemaTables : Type 0 where
    pub schema_name : Text
    pub tables : List (ℕ × Provider)
    pub stores : Registry t

  -- `HashMap::entry` of the tables
  unfoldable pub table_entry : List (ℕ × Provider) → ℕ → Option Provider
  table_entry [] oid = none
  table_entry ((o, provider) ∷ rest) oid = if o == oid then some provider else table_entry rest oid

  -- `LakehouseObjectStoreRegistry::contains_url`
  unfoldable pub contains_url : Registry t → Url → Bool
  contains_url stores url = any (λ s. same_url s.0 url) stores

  -- The loop over the fields of the schema; a field without an attribute of its index is not checked.
  unfoldable pub check_fields : List Field → List PgAttribute → Result (Unit {0})
  unfolding can_convert_to_attribute
  check_fields [] attributes = ok tt
  check_fields (field ∷ rest) [] = ok tt
  check_fields (field ∷ rest) (attribute ∷ attributes) =
      let later = check_fields rest attributes in
      first_then (can_convert_to_attribute l p field attribute) later

  abbrev L : Type 0 → Type 0
  L = Exec SchemaTables

  abbrev on_stores : Exec (Registry t) Unit → L Unit
  on_stores = zoom (λ s. s.stores) (λ stores s. record s { stores = stores })

  -- The registration of the store of a url that the session has not.
  unfoldable pub register_url : Bool → PgTable → Url → TableFormat → L Unit
  unfolding register_object_store handler_from_table relation_server_options
      relation_user_mapping_options
  register_url true relation url table_format = pure tt
  register_url false relation url table_format = do
    serverid ← lift relation.serverid
    server_options ← lift (relation_server_options relation)
    on_stores (
        register_object_store t (handler_from_table system_catalog serverid) record {
          url = url;
          table_format = table_format;
          server_options = server_options;
          user_mapping_options = relation_user_mapping_options relation;
        })

  -- The two branches of `match TableFormat::from(format)`.
  abbrev provider_for : TableFormat → Text → Text → Result Provider
  provider_for plain location ext = create_listing_provider d location ext
  provider_for delta location ext = create_listing_provider d location ext

  -- The branch of `Vacant`.
  unfoldable pub insert_table : PgTable → Text → Text → TableFormat → L Provider
  unfolding contains_url register_url create_listing_provider check_fields
  insert_table relation location ext table_format = do
    url ← lift (parse_url location)
    known ← gets (λ s. contains_url s.stores url)
    register_url known relation url table_format
    provider ← lift (provider_for table_format location ext)
    lift (check_fields (fields provider) relation.tuple_desc)
    modify (λ s. record s { tables = (relation.oid, provider) ∷ s.tables })
    pure provider

  abbrev entry_or : Option Provider → L Provider → L Provider
  entry_or (some provider) vacant = pure provider
  entry_or none vacant = vacant

  -- `table_impl`, from the opened relation on.
  unfoldable pub table_of : PgTable → L Provider
  unfolding relation_table_options as_str table_format_from table_entry insert_table
  table_of relation = do
    options ← lift (relation_table_options relation)
    location ← lift (require_option (as_str path) options)
    ext ← lift (require_option (as_str extension) options)
    entry ← gets (λ s. table_entry s.tables relation.oid)
    entry_or entry (
        insert_table relation location ext
          (table_format_from (require_option_or (as_str format) options (str ""))))

  -- `table_impl`
  unfoldable pub table_impl : Text → L Provider
  unfolding table_of
  table_impl table_name = do
    schema_name ← gets (λ s. s.schema_name)
    relation ← or_panic (lift (open_with_name (quoted schema_name table_name)))
    table_of relation

  abbrev exists_in : Result PgTable → Result Bool
  exists_in (err (error message)) = ok false
  exists_in (err (panic message)) = err (panic message)
  exists_in (ok relation) =
      if relation.is_foreign_table
      then bind_result relation.serverid
          (λ serverid. ok (is_known (handler_from_table system_catalog serverid)))
      else ok false

  -- `SchemaProvider::table_exist`
  unfoldable pub table_exist : Text → Text → Result Bool
  unfolding handler_from_table
  table_exist schema_name table_name = exists_in (open_with_name (quoted schema_name table_name))

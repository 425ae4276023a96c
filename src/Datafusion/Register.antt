-- ===== src/Datafusion/Register.antt =====
-- src/datafusion/src/fdw/handler.rs, and `register_object_store` and `new` of the wrappers in
-- src/datafusion/src/fdw/{s3,gcs,azblob,azdls,local}.rs.
use pg_analytics.Prelude.{ℕ, none, List, [], ◌∷◌, if◌then◌else◌}
use pg_analytics.Text.{Text, str, same}
use pg_analytics.Result.{Result, ok}
use pg_analytics.Exec.{Exec, pure, lift, modify, ◌>>=◌, ◌>>◌}
use pg_analytics.Options.{OptionMap}
use pg_analytics.Fdw.Handler.{SystemCatalog}
use pg_analytics.Datafusion.Options.{
  Url, ObjectStoreConfig, table_format_from, as_str, path, format,
}
use pg_analytics.Datafusion.Store.{Builder}
use pg_analytics.Datafusion.S3.{s3_builder}
use pg_analytics.Datafusion.Gcs.{gcs_builder}
use pg_analytics.Datafusion.Azblob.{azblob_builder}
use pg_analytics.Datafusion.Azdls.{azdls_builder}
use pg_analytics.Datafusion.Base.{Frames, LakeFdw}

-- `FdwHandler`
pub data LakeHandler : Type 0 where
  s3 local_file gcs azblob azdls other_handler : LakeHandler

-- `FdwHandler::from(&str)`
unfoldable pub handler_from_name : Text → LakeHandler
unfolding same
handler_from_name name =
    if same name (str "s3_fdw_handler")
    then s3
    else if same name (str "local_file_fdw_handler")
    then local_file
    else if same name (str "gcs_fdw_handler")
    then gcs
    else if same name (str "azblob_fdw_handler")
    then azblob
    else if same name (str "azdls_fdw_handler")
    then azdls
    else other_handler

-- `FdwHandler::from(*mut ForeignServer)`
unfoldable pub handler_from_server : SystemCatalog → ℕ → LakeHandler
unfolding handler_from_name
handler_from_server catalog server =
    handler_from_name (catalog.proname (catalog.fdwhandler (catalog.fdwid server)))

-- `FdwHandler::from(*mut ForeignTable)`
unfoldable pub handler_from_table : SystemCatalog → ℕ → LakeHandler
unfolding handler_from_server
handler_from_table catalog serverid = handler_from_server catalog serverid

-- The stores that opendal makes of builders, and the file system.
pub record Stores : Type 1 where
  pub ObjectStore : Type 0
  -- `Operator::new(builder)?.finish()`
  pub s3_operator : Builder → Result ObjectStore
  pub gcs_operator : Builder → Result ObjectStore
  pub azblob_operator : Builder → Result ObjectStore
  pub azdls_operator : Builder → Result ObjectStore
  pub local_file_system : ObjectStore
  pub from_connection_string : Text → Result Builder
  -- `Session::session_context`
  pub session_context : Result (Unit {0})
  -- `Url::parse`, and `require_option` and `require_option_or` of supabase-wrappers
  pub parse_url : Text → Result Url
  pub require_option : Text → OptionMap → Result Text
  pub require_option_or : Text → OptionMap → Text → Text

module _ (t : Stores) where
  open t use {
    ObjectStore, s3_operator, gcs_operator, azblob_operator, azdls_operator, local_file_system,
    from_connection_string, session_context, parse_url, require_option, require_option_or,
  }

  -- The stores of the session, last one first.
  abbrev pub Registry : Type 0
  Registry = List (Url × ObjectStore)

  -- The common body of the wrappers on opendal: the context, the builder, the operator.
  abbrev register_by : Url → Result Builder → (Builder → Result ObjectStore) → Exec Registry Unit
  register_by url built operator = do
    lift session_context
    builder ← lift built
    store ← lift (operator builder)
    modify (λ stores. (url, store) ∷ stores)

  -- `S3Fdw::register_object_store`
  unfoldable pub s3_register : ObjectStoreConfig → Exec Registry Unit
  unfolding s3_builder
  s3_register config = register_by config.url (ok (s3_builder config)) s3_operator

  -- `GcsFdw::register_object_store`
  unfoldable pub gcs_register : ObjectStoreConfig → Exec Registry Unit
  unfolding gcs_builder
  gcs_register config = register_by config.url (ok (gcs_builder config)) gcs_operator

  -- `AzblobFdw::register_object_store`
  unfoldable pub azblob_register : ObjectStoreConfig → Exec Registry Unit
  unfolding azblob_builder
  azblob_register config =
      register_by config.url (azblob_builder from_connection_string config) azblob_operator

  -- `AzdlsFdw::register_object_store`
  unfoldable pub azdls_register : ObjectStoreConfig → Exec Registry Unit
  unfolding azdls_builder
  azdls_register config = register_by config.url (ok (azdls_builder config)) azdls_operator

  -- `LocalFileFdw::register_object_store`; both formats have the same store.
  unfoldable pub local_register : ObjectStoreConfig → Exec Registry Unit
  local_register config = do
    lift session_context
    modify (λ stores. (config.url, local_file_system) ∷ stores)

  unfoldable pub register_object_store : LakeHandler → ObjectStoreConfig → Exec Registry Unit
  unfolding s3_register gcs_register azblob_register azdls_register local_register
  register_object_store s3 config = s3_register config
  register_object_store local_file config = local_register config
  register_object_store gcs config = gcs_register config
  register_object_store azdls config = azdls_register config
  register_object_store azblob config = azblob_register config
  register_object_store other_handler config = pure tt

  module _ (f : Frames) (Cell : Type 0) where
    -- The wrapper with nothing in it.
    abbrev pub empty_wrapper : LakeFdw f Cell
    empty_wrapper = record {
      dataframe = none;
      stream = none;
      current_batch = none;
      current_batch_index = 0;
      target_columns = [];
    }

    -- `new` of the wrappers, for their `register_object_store`.
    unfoldable pub new_by :
        (ObjectStoreConfig → Exec Registry Unit)
        → OptionMap
        → OptionMap
        → OptionMap
        → Exec Registry (LakeFdw f Cell)
    unfolding table_format_from as_str
    new_by register table_options server_options user_mapping_options = do
      location ← lift (require_option (as_str path) table_options)
      url ← lift (parse_url location)
      register record {
        url = url;
        table_format = table_format_from (require_option_or (as_str format) table_options (str ""));
        server_options = server_options;
        user_mapping_options = user_mapping_options;
      }
      pure empty_wrapper

    unfoldable pub s3_new : OptionMap → OptionMap → OptionMap → Exec Registry (LakeFdw f Cell)
    unfolding new_by s3_register
    s3_new = new_by s3_register

    unfoldable pub gcs_new : OptionMap → OptionMap → OptionMap → Exec Registry (LakeFdw f Cell)
    unfolding new_by gcs_register
    gcs_new = new_by gcs_register

    unfoldable pub azblob_new : OptionMap → OptionMap → OptionMap → Exec Registry (LakeFdw f Cell)
    unfolding new_by azblob_register
    azblob_new = new_by azblob_register

    unfoldable pub azdls_new : OptionMap → OptionMap → OptionMap → Exec Registry (LakeFdw f Cell)
    unfolding new_by azdls_register
    azdls_new = new_by azdls_register

    unfoldable pub local_new : OptionMap → OptionMap → OptionMap → Exec Registry (LakeFdw f Cell)
    unfolding new_by local_register
    local_new = new_by local_register

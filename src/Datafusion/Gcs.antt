-- ===== src/Datafusion/Gcs.antt =====
-- src/datafusion/src/fdw/gcs.rs: the options, the builder and the validator.
use pg_analytics.Prelude.{Bool, false, Option, List, [], ◌∷◌}
use pg_analytics.Text.{Text, str}
use pg_analytics.Result.{Result}
use pg_analytics.Options.{OptionEnum, get}
use pg_analytics.Fdw.Validate.{OptList, OptionCheck}
use pg_analytics.Datafusion.Options.{TableOption, table_options, ObjectStoreConfig, validate_enum}
use pg_analytics.Datafusion.Store.{Builder, call_some, CatalogRelation, by_relation}

-- `GcsServerOption`
pub data GcsServerOption : Type 0 where
  default_storage_class endpoint predefined_acl : GcsServerOption

unfoldable pub as_str : GcsServerOption → Text
as_str default_storage_class = str "default_storage_class"
as_str endpoint = str "endpoint"
as_str predefined_acl = str "predefined_acl"

unfoldable pub is_required : GcsServerOption → Bool
is_required default_storage_class = false
is_required endpoint = false
is_required predefined_acl = false

unfoldable pub iter : List GcsServerOption
iter = default_storage_class ∷ endpoint ∷ predefined_acl ∷ []

instance unfoldable pub gcs_server_options : OptionEnum GcsServerOption
unfolding as_str is_required iter
gcs_server_options = record { iter = iter; as_ref = as_str; is_required = is_required }

-- `GcsUserMappingOption`
pub data GcsUserMappingOption : Type 0 where
  credential credential_path scope service_account : GcsUserMappingOption

unfoldable pub user_as_str : GcsUserMappingOption → Text
user_as_str credential = str "credential"
user_as_str credential_path = str "credential_path"
user_as_str scope = str "scope"
user_as_str service_account = str "service_account"

-- `TryFrom<ObjectStoreConfig>`
unfoldable pub gcs_builder : ObjectStoreConfig → Builder
unfolding call_some
gcs_builder options =
    let b1 = call_some (str "bucket") options.url.host_str [] in
    let b2 =
      call_some (str "credential") (get options.user_mapping_options (user_as_str credential)) b1 in
    let b3 =
      call_some (str "credential_path")
        (get options.user_mapping_options (user_as_str credential_path)) b2 in
    let b4 =
      call_some (str "default_storage_class")
        (get options.server_options (as_str default_storage_class)) b3 in
    let b5 = call_some (str "endpoint") (get options.server_options (as_str endpoint)) b4 in
    let b6 =
      call_some (str "predefined_acl") (get options.server_options (as_str predefined_acl)) b5 in
    let b7 = call_some (str "scope") (get options.user_mapping_options (user_as_str scope)) b6 in
    let b8 =
      call_some (str "service_account")
        (get options.user_mapping_options (user_as_str service_account)) b7 in
    b8

unfoldable pub gcs_validator :
    (List Text → Text) → OptionCheck → OptList → Option CatalogRelation → Result (Unit {0})
unfolding by_relation validate_enum
gcs_validator debug c opt_list catalog =
    by_relation catalog (validate_enum debug GcsServerOption c opt_list)
      (validate_enum debug TableOption c opt_list)

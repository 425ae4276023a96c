-- ===== src/Datafusion/Azblob.antt =====
-- src/datafusion/src/fdw/azblob.rs: the options, the builder and the validator.
pub mod Root
use pg_analytics.Prelude.{Bool, true, false, Option, none, some, List, [], ◌∷◌}
use pg_analytics.Text.{Text, str}
use pg_analytics.Result.{Result, ok, ◌>>=◌}
use pg_analytics.Options.{OptionEnum, get}
use pg_analytics.Fdw.Validate.{OptList, OptionCheck}
use pg_analytics.Datafusion.Options.{
  TableOption, table_options, ObjectStoreConfig, TableFormat, plain, delta, validate_enum,
}
use pg_analytics.Datafusion.Store.{Builder, call, call_some, CatalogRelation, by_relation}

-- `AzblobServerOption`
pub data AzblobServerOption : Type 0 where
  encryption_algorithm endpoint : AzblobServerOption

unfoldable pub as_str : AzblobServerOption → Text
as_str encryption_algorithm = str "encryption_algorithm"
as_str endpoint = str "endpoint"

unfoldable pub is_required : AzblobServerOption → Bool
is_required encryption_algorithm = false
is_required endpoint = true

unfoldable pub iter : List AzblobServerOption
iter = encryption_algorithm ∷ endpoint ∷ []

instance unfoldable pub azblob_server_options : OptionEnum AzblobServerOption
unfolding as_str is_required iter
azblob_server_options = record { iter = iter; as_ref = as_str; is_required = is_required }

-- `AzblobUserMappingOption`
pub data AzblobUserMappingOption : Type 0 where
  account_key account_name connection_string customer_provided_key encryption_key
        encryption_key_sha256 sas_token :
      AzblobUserMappingOption

unfoldable pub user_as_str : AzblobUserMappingOption → Text
user_as_str account_key = str "account_key"
user_as_str account_name = str "account_name"
user_as_str connection_string = str "connection_string"
user_as_str customer_provided_key = str "customer_provided_key"
user_as_str encryption_key = str "encryption_key"
user_as_str encryption_key_sha256 = str "encryption_key_sha256"
user_as_str sas_token = str "sas_token"

abbrev root_of : TableFormat → Text → Builder
root_of delta path = call (str "root") path []
root_of plain path = []

-- `if format == TableFormat::Delta { builder.root(url.path()); }`
unfoldable pub rooted : ObjectStoreConfig → Builder
rooted options = root_of options.table_format options.url.url_path

-- `if let Some(connection_string) = … { builder = Azblob::from_connection_string(…)?; }`
unfoldable pub connected : (Text → Result Builder) → Option Text → Builder → Result Builder
connected from_connection_string none builder = ok builder
connected from_connection_string (some text) builder = from_connection_string text

-- The calls behind these two.
unfoldable pub azblob_calls : ObjectStoreConfig → Builder → Builder
unfolding call_some
azblob_calls options b0 =
    let b1 = call_some (str "container") options.url.host_str b0 in
    let b2 =
      call_some (str "account_key") (get options.user_mapping_options (user_as_str account_key))
        b1 in
    let b3 =
      call_some (str "account_name") (get options.user_mapping_options (user_as_str account_name))
        b2 in
    let b4 =
      call_some (str "server_side_encryption_with_customer_key")
        (get options.user_mapping_options (user_as_str customer_provided_key)) b3 in
    let b5 =
      call_some (str "encryption_key")
        (get options.user_mapping_options (user_as_str encryption_key)) b4 in
    let b6 =
      call_some (str "encryption_key_sha256")
        (get options.user_mapping_options (user_as_str encryption_key_sha256)) b5 in
    let b7 =
      call_some (str "sas_token") (get options.user_mapping_options (user_as_str sas_token)) b6 in
    let b8 =
      call_some (str "encryption_algorithm")
        (get options.server_options (as_str encryption_algorithm)) b7 in
    let b9 = call_some (str "endpoint") (get options.server_options (as_str endpoint)) b8 in b9

-- `TryFrom<ObjectStoreConfig>`, for opendal's `from_connection_string`.
unfoldable pub azblob_builder : (Text → Result Builder) → ObjectStoreConfig → Result Builder
unfolding rooted connected azblob_calls user_as_str get
azblob_builder from_connection_string options = do
  base ←
      connected from_connection_string
        (get options.user_mapping_options (user_as_str connection_string)) (rooted options)
  ok (azblob_calls options base)

unfoldable pub azblob_validator :
    (List Text → Text) → OptionCheck → OptList → Option CatalogRelation → Result (Unit {0})
unfolding by_relation validate_enum
azblob_validator debug c opt_list catalog =
    by_relation catalog (validate_enum debug AzblobServerOption c opt_list)
      (validate_enum debug TableOption c opt_list)

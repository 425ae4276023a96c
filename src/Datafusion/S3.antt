-- ===== src/Datafusion/S3.antt =====
-- src/datafusion/src/fdw/s3.rs: the options, the builder and the validator.
use pg_analytics.Prelude.{Bool, false, Option, none, some, List, [], ◌∷◌, ◌++◌, if◌then◌else◌}
use pg_analytics.Text.{Text, str, same}
use pg_analytics.Result.{Result}
use pg_analytics.Options.{OptionEnum, get}
use pg_analytics.Fdw.Validate.{OptList, OptionCheck}
use pg_analytics.Datafusion.Options.{TableOption, table_options, ObjectStoreConfig, validate_enum}
use pg_analytics.Datafusion.Store.{Builder, call_some, CatalogRelation, by_relation}

-- `AmazonServerOption`
pub data AmazonServerOption : Type 0 where
  endpoint region allow_anonymous : AmazonServerOption

unfoldable pub as_str : AmazonServerOption → Text
as_str endpoint = str "endpoint"
as_str region = str "region"
as_str allow_anonymous = str "allow_anonymous"

unfoldable pub is_required : AmazonServerOption → Bool
is_required endpoint = false
is_required region = false
is_required allow_anonymous = false

unfoldable pub iter : List AmazonServerOption
iter = endpoint ∷ region ∷ allow_anonymous ∷ []

instance unfoldable pub amazon_server_options : OptionEnum AmazonServerOption
unfolding as_str is_required iter
amazon_server_options = record { iter = iter; as_ref = as_str; is_required = is_required }

-- `AmazonUserMappingOption`
pub data AmazonUserMappingOption : Type 0 where
  access_key_id secret_access_key security_token : AmazonUserMappingOption

unfoldable pub user_as_str : AmazonUserMappingOption → Text
user_as_str access_key_id = str "access_key_id"
user_as_str secret_access_key = str "secret_access_key"
user_as_str security_token = str "security_token"

-- `if let Some(allow) = … { if allow == "true" { builder.allow_anonymous(); } }`
unfoldable pub call_anonymous : Option Text → Builder → Builder
unfolding same
call_anonymous none builder = builder
call_anonymous (some allow) builder =
    if same allow (str "true") then builder ++ (str "allow_anonymous", none) ∷ [] else builder

-- `TryFrom<ObjectStoreConfig>`
unfoldable pub s3_builder : ObjectStoreConfig → Builder
unfolding call_some call_anonymous
s3_builder options =
    let b1 = ((str "disable_config_load", none) ∷ (str "disable_ec2_metadata", none) ∷ []) in
    let b2 = call_some (str "bucket") options.url.host_str b1 in
    let b3 = call_some (str "region") (get options.server_options (as_str region)) b2 in
    let b4 =
      call_some (str "access_key_id") (get options.user_mapping_options (user_as_str access_key_id))
        b3 in
    let b5 =
      call_some (str "secret_access_key")
        (get options.user_mapping_options (user_as_str secret_access_key)) b4 in
    let b6 =
      call_some (str "security_token")
        (get options.user_mapping_options (user_as_str security_token)) b5 in
    let b7 = call_some (str "endpoint") (get options.server_options (as_str endpoint)) b6 in
    let b8 = call_anonymous (get options.server_options (as_str allow_anonymous)) b7 in b8

unfoldable pub s3_validator :
    (List Text → Text) → OptionCheck → OptList → Option CatalogRelation → Result (Unit {0})
unfolding by_relation validate_enum
s3_validator debug c opt_list catalog =
    by_relation catalog (validate_enum debug AmazonServerOption c opt_list)
      (validate_enum debug TableOption c opt_list)

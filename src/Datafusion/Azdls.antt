-- ===== src/Datafusion/Azdls.antt =====
-- src/datafusion/src/fdw/azdls.rs: the options, the builder and the validator.
use pg_analytics.Prelude.{Bool, true, Option, List, [], ◌∷◌}
use pg_analytics.Text.{Text, str}
use pg_analytics.Result.{Result}
use pg_analytics.Options.{OptionEnum, get}
use pg_analytics.Fdw.Validate.{OptList, OptionCheck}
use pg_analytics.Datafusion.Options.{
  TableOption, table_options, ObjectStoreConfig, TableFormat, plain, delta, validate_enum,
}
use pg_analytics.Datafusion.Store.{Builder, call, call_some, CatalogRelation, by_relation}

-- `AzdlsServerOption`
pub data AzdlsServerOption : Type 0 where
  endpoint : AzdlsServerOption

unfoldable pub as_str : AzdlsServerOption → Text
as_str endpoint = str "endpoint"

unfoldable pub is_required : AzdlsServerOption → Bool
is_required endpoint = true

unfoldable pub iter : List AzdlsServerOption
iter = endpoint ∷ []

instance unfoldable pub azdls_server_options : OptionEnum AzdlsServerOption
unfolding as_str is_required iter
azdls_server_options = record { iter = iter; as_ref = as_str; is_required = is_required }

-- `AzdlsUserMappingOption`
pub data AzdlsUserMappingOption : Type 0 where
  account_key account_name : AzdlsUserMappingOption

unfoldable pub user_as_str : AzdlsUserMappingOption → Text
user_as_str account_key = str "account_key"
user_as_str account_name = str "account_name"

abbrev root_of : TableFormat → Text → Builder
root_of delta path = call (str "root") path []
root_of plain path = []

-- `if format == TableFormat::Delta { builder.root(url.path()); }`
unfoldable pub rooted : ObjectStoreConfig → Builder
rooted options = root_of options.table_format options.url.url_path

-- The calls behind the root.
unfoldable pub azdls_calls : ObjectStoreConfig → Builder → Builder
unfolding call_some
azdls_calls options b0 =
    let b1 = call_some (str "filesystem") options.url.host_str b0 in
    let b2 =
      call_some (str "account_key") (get options.user_mapping_options (user_as_str account_key))
        b1 in
    let b3 =
      call_some (str "account_name") (get options.user_mapping_options (user_as_str account_name))
        b2 in
    let b4 = call_some (str "endpoint") (get options.server_options (as_str endpoint)) b3 in b4

-- `TryFrom<ObjectStoreConfig>`
unfoldable pub azdls_builder : ObjectStoreConfig → Builder
unfolding rooted azdls_calls
azdls_builder options = azdls_calls options (rooted options)

unfoldable pub azdls_validator :
    (List Text → Text) → OptionCheck → OptList → Option CatalogRelation → Result (Unit {0})
unfolding by_relation validate_enum
azdls_validator debug c opt_list catalog =
    by_relation catalog (validate_enum debug AzdlsServerOption c opt_list)
      (validate_enum debug TableOption c opt_list)

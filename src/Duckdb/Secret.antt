-- ===== src/Duckdb/Secret.antt =====
-- src/duckdb/secret.rs: the options and the statement that they become.
pub mod Arguments
use pg_analytics.Prelude.{Bool, true, false, Option, some, List, [], ◌∷◌, flatten, if◌then◌else◌}
use pg_analytics.Text.{Text, str, concat, join}
use pg_analytics.Result.{Result, ok, err, error, ok_or, ◌>>=◌}
use pg_analytics.Options.{OptionMap, OptionEnum, get, is_empty}
use mathlib.Core.Option

pub data UserMappingOptions : Type 0 where
  type provider scope chain key_id secret region session_token endpoint : UserMappingOptions
  url_style use_ssl url_compatibility_mode account_id connection_string : UserMappingOptions
  account_name tenant_id client_id client_secret client_certificate_path : UserMappingOptions
  http_proxy proxy_user_name proxy_password : UserMappingOptions

-- `UserMappingOptions::iter()`, by `EnumIter`: the variants in their order.
unfoldable pub iter : List UserMappingOptions
iter =
    type ∷ provider ∷ scope ∷ chain ∷ key_id ∷ secret ∷ region ∷ session_token ∷ endpoint
    ∷ url_style ∷ use_ssl ∷ url_compatibility_mode ∷ account_id ∷ connection_string ∷ account_name
    ∷ tenant_id ∷ client_id ∷ client_secret ∷ client_certificate_path ∷ http_proxy ∷ proxy_user_name
    ∷ proxy_password ∷ []

-- `as_ref`, by `AsRefStr` in snake case.
unfoldable pub as_ref : UserMappingOptions → Text
as_ref type = str "type"
as_ref provider = str "provider"
as_ref scope = str "scope"
as_ref chain = str "chain"
as_ref key_id = str "key_id"
as_ref secret = str "secret"
as_ref region = str "region"
as_ref session_token = str "session_token"
as_ref endpoint = str "endpoint"
as_ref url_style = str "url_style"
as_ref use_ssl = str "use_ssl"
as_ref url_compatibility_mode = str "url_compatibility_mode"
as_ref account_id = str "account_id"
as_ref connection_string = str "connection_string"
as_ref account_name = str "account_name"
as_ref tenant_id = str "tenant_id"
as_ref client_id = str "client_id"
as_ref client_secret = str "client_secret"
as_ref client_certificate_path = str "client_certificate_path"
as_ref http_proxy = str "http_proxy"
as_ref proxy_user_name = str "proxy_user_name"
as_ref proxy_password = str "proxy_password"

unfoldable pub is_required : UserMappingOptions → Bool
is_required type = true
is_required provider = false
is_required scope = false
is_required chain = false
is_required key_id = false
is_required secret = false
is_required region = false
is_required session_token = false
is_required endpoint = false
is_required url_style = false
is_required use_ssl = false
is_required url_compatibility_mode = false
is_required account_id = false
is_required connection_string = false
is_required account_name = false
is_required tenant_id = false
is_required client_id = false
is_required client_secret = false
is_required client_certificate_path = false
is_required http_proxy = false
is_required proxy_user_name = false
is_required proxy_password = false

instance unfoldable pub user_mapping_options : OptionEnum UserMappingOptions
unfolding iter as_ref is_required
user_mapping_options = record { iter = iter; as_ref = as_ref; is_required = is_required }

-- The vector of the optional arguments, in the order in which the code lists them.
unfoldable pub arguments : OptionMap → Text → List (Option Text)
arguments options secret_type =
    some secret_type
    ∷ Option.map (λ option. concat (str "PROVIDER " ∷ option ∷ [])) (get options (as_ref provider))
    ∷ Option.map (λ option. concat (str "SCOPE " ∷ option ∷ [])) (get options (as_ref scope))
    ∷ Option.map (λ option. concat (str "CHAIN '" ∷ option ∷ str "'" ∷ []))
        (get options (as_ref chain))
    ∷ Option.map (λ option. concat (str "KEY_ID '" ∷ option ∷ str "'" ∷ []))
        (get options (as_ref key_id))
    ∷ Option.map (λ option. concat (str "SECRET '" ∷ option ∷ str "'" ∷ []))
        (get options (as_ref secret))
    ∷ Option.map (λ option. concat (str "REGION '" ∷ option ∷ str "'" ∷ []))
        (get options (as_ref region))
    ∷ Option.map (λ option. concat (str "SESSION_TOKEN '" ∷ option ∷ str "'" ∷ []))
        (get options (as_ref session_token))
    ∷ Option.map (λ option. concat (str "ENDPOINT '" ∷ option ∷ str "'" ∷ []))
        (get options (as_ref endpoint))
    ∷ Option.map (λ option. concat (str "URL_STYLE '" ∷ option ∷ str "'" ∷ []))
        (get options (as_ref url_style))
    ∷ Option.map (λ option. concat (str "USE_SSL " ∷ option ∷ [])) (get options (as_ref use_ssl))
    ∷ Option.map (λ option. concat (str "URL_COMPATIBILITY_MODE " ∷ option ∷ []))
        (get options (as_ref url_compatibility_mode))
    ∷ Option.map (λ option. concat (str "ACCOUNT_ID '" ∷ option ∷ str "'" ∷ []))
        (get options (as_ref account_id))
    ∷ Option.map (λ option. concat (str "CONNECTION_STRING '" ∷ option ∷ str "'" ∷ []))
        (get options (as_ref connection_string))
    ∷ Option.map (λ option. concat (str "ACCOUNT_NAME '" ∷ option ∷ str "'" ∷ []))
        (get options (as_ref account_name))
    ∷ Option.map (λ option. concat (str "TENANT_ID '" ∷ option ∷ str "'" ∷ []))
        (get options (as_ref tenant_id))
    ∷ Option.map (λ option. concat (str "CLIENT_ID '" ∷ option ∷ str "'" ∷ []))
        (get options (as_ref client_id))
    ∷ Option.map (λ option. concat (str "CLIENT_SECRET '" ∷ option ∷ str "'" ∷ []))
        (get options (as_ref client_secret))
    ∷ Option.map (λ option. concat (str "CLIENT_CERTIFICATE_PATH '" ∷ option ∷ str "'" ∷ []))
        (get options (as_ref client_certificate_path))
    ∷ Option.map (λ option. concat (str "HTTP_PROXY '" ∷ option ∷ str "'" ∷ []))
        (get options (as_ref http_proxy))
    ∷ Option.map (λ option. concat (str "PROXY_USER_NAME '" ∷ option ∷ str "'" ∷ []))
        (get options (as_ref proxy_user_name))
    ∷ Option.map (λ option. concat (str "PROXY_PASSWORD '" ∷ option ∷ str "'" ∷ []))
        (get options (as_ref proxy_password))
    ∷ []

unfoldable pub create_secret : Text → OptionMap → Result Text
unfolding arguments
create_secret secret_name options =
    if is_empty options then err (error (str "create_secret requires user mapping options")) else do
      kind ← ok_or (get options (as_ref type)) (error (str "type option required for USER MAPPING"))
      let secret_string =
          join (str ", ") (flatten (arguments options (concat (str "TYPE " ∷ kind ∷ []))))
      ok (
          concat (
            str "CREATE OR REPLACE SECRET "
            ∷ secret_name
            ∷ str " ("
            ∷ secret_string
            ∷ str ")"
            ∷ []))

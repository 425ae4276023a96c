-- ===== src/Duckdb/Secret/Arguments.antt =====
-- src/duckdb/secret.rs: what `create_secret` passes to DuckDB, against a description by the enum.
use pg_analytics.Prelude.{
  ◌≡◌, refl, inl, inr, Option, none, some, [], ◌∷◌, flatten, Option-cases, List, if◌then◌else◌,
}
use pg_analytics.Text.{Text, str, concat, join}
use pg_analytics.Result.{ok, err, error, ok_or, ◌>>=◌}
use pg_analytics.Options.{OptionMap, get, is_empty}
use pg_analytics.Options.Reference.{word, quoted_word, passed}
use pg_analytics.Duckdb.Secret.{
  UserMappingOptions, type, provider, scope, chain, key_id, secret, region, session_token, endpoint,
  url_style, use_ssl, url_compatibility_mode, account_id, connection_string, account_name,
  tenant_id, client_id, client_secret, client_certificate_path, http_proxy, proxy_user_name,
  proxy_password, iter, as_ref, user_mapping_options, arguments, create_secret,
}

-- How an option is passed on, if it is.
unfoldable pub style : UserMappingOptions → Option (Text → Text)
style type = none
style provider = some (word (str "PROVIDER"))
style scope = some (word (str "SCOPE"))
style chain = some (quoted_word (str "CHAIN"))
style key_id = some (quoted_word (str "KEY_ID"))
style secret = some (quoted_word (str "SECRET"))
style region = some (quoted_word (str "REGION"))
style session_token = some (quoted_word (str "SESSION_TOKEN"))
style endpoint = some (quoted_word (str "ENDPOINT"))
style url_style = some (quoted_word (str "URL_STYLE"))
style use_ssl = some (word (str "USE_SSL"))
style url_compatibility_mode = some (word (str "URL_COMPATIBILITY_MODE"))
style account_id = some (quoted_word (str "ACCOUNT_ID"))
style connection_string = some (quoted_word (str "CONNECTION_STRING"))
style account_name = some (quoted_word (str "ACCOUNT_NAME"))
style tenant_id = some (quoted_word (str "TENANT_ID"))
style client_id = some (quoted_word (str "CLIENT_ID"))
style client_secret = some (quoted_word (str "CLIENT_SECRET"))
style client_certificate_path = some (quoted_word (str "CLIENT_CERTIFICATE_PATH"))
style http_proxy = some (quoted_word (str "HTTP_PROXY"))
style proxy_user_name = some (quoted_word (str "PROXY_USER_NAME"))
style proxy_password = some (quoted_word (str "PROXY_PASSWORD"))

arguments-passed :
    (m : OptionMap) (kind : Text) → flatten (arguments m kind) ≡ kind ∷ passed style m
unfolding arguments style iter as_ref str concat user_mapping_options
arguments-passed m kind = refl

abbrev pub secret_statement : Text → List Text → Text
secret_statement secret_name args =
    concat (
      str "CREATE OR REPLACE SECRET "
      ∷ secret_name
      ∷ str " ("
      ∷ join (str ", ") args
      ∷ str ")"
      ∷ [])

-- For every map of options, `create_secret` fails on an empty map and on one without a type, each
-- with its message. Otherwise it gives the statement whose arguments are the type and behind it
-- every given option of the enum, in the order of the enum, once each and in its style.
pub create_secret-eq :
    (secret_name : Text) (m : OptionMap)
    → create_secret secret_name m ≡ (
        if is_empty m then err (error (str "create_secret requires user mapping options")) else do
          kind ← ok_or (get m (as_ref type)) (error (str "type option required for USER MAPPING"))
          ok (secret_statement secret_name (word (str "TYPE") kind ∷ passed style m)))
unfolding create_secret
create_secret-eq n m = elim (Option-cases (get m (as_ref type))) [
  | inl e ↦ rw e
  | inr (kind, e) ↦ rw e (rw arguments-passed (unfold concat str in refl))
]

-- ===== src/Datafusion/Local.antt =====
-- src/datafusion/src/fdw/local.rs: the validator, which refuses other relations.
use pg_analytics.Prelude.{Option, none, some, List}
use pg_analytics.Text.{Text}
use pg_analytics.Result.{Result, Failure, ok, err}
use pg_analytics.Fdw.Validate.{OptList, OptionCheck}
use pg_analytics.Datafusion.Options.{TableOption, table_options, validate_enum}
use pg_analytics.Datafusion.Store.{
  CatalogRelation, wrapper_relation, server_relation, table_relation, other_relation,
}

-- `unsupported` is `UnsupportedFdwOid` with the oid of the relation.
unfoldable pub local_validator :
    (List Text → Text)
    → Failure
    → OptionCheck
    → OptList
    → Option CatalogRelation
    → Result (Unit {0})
unfolding validate_enum
local_validator debug unsupported c opt_list none = ok tt
local_validator debug unsupported c opt_list (some wrapper_relation) = ok tt
local_validator debug unsupported c opt_list (some server_relation) = ok tt
local_validator debug unsupported c opt_list (some table_relation) =
    validate_enum debug TableOption c opt_list
local_validator debug unsupported c opt_list (some other_relation) = err unsupported

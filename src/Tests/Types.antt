-- ===== src/Tests/Types.antt =====
-- src/fdw: concrete types of columns, and names of handlers.
use pg_analytics.Prelude.{◌++◌, ◌≡◌, refl}
use pg_analytics.Text.{Text, str, concat, same}
use pg_analytics.Result.{ok}
use pg_analytics.Fdw.Handler.{csv, from_name, handler_name_of, from_name-handler_name_of}
use pg_analytics.Fdw.Trigger.{duckdb_type_to_pg}
use pg_analytics.Fdw.Trigger.Kinds.{duckdb_name, postgres_name, usmallint}
use pg_analytics.Fdw.Trigger.Arrays.{
  brackets, duckdb_type_to_pg-brackets, duckdb_type_to_pg-DuckdbType, duckdb_type_to_pg_shadowed,
}

duckdb_type_to_pg-brackets_example :
    duckdb_type_to_pg (str "a") (str "DECIMAL(18,3)" ++ brackets 2)
    ≡ ok (str "DECIMAL(18,3)" ++ brackets 2)
unfolding duckdb_type_to_pg str same pg_analytics.Text.starts_with pg_analytics.Text.replace
duckdb_type_to_pg-brackets_example =
    duckdb_type_to_pg-brackets (str "a") (str "DECIMAL(18,3)") 2 (str "DECIMAL(18,3)") refl refl

duckdb_type_to_pg-DuckdbType_example :
    duckdb_type_to_pg (str "a") (str "USMALLINT[]") ≡ ok (str "INTEGER[]")
unfolding duckdb_name postgres_name str
duckdb_type_to_pg-DuckdbType_example = duckdb_type_to_pg-DuckdbType (str "a") usmallint 1

duckdb_type_to_pg_shadowed_example :
    (duckdb_type_to_pg (str "a") (str "UHUGEINT" ++ brackets 1) ≡ ok (str "UNUMERIC" ++ brackets 1))
    × (duckdb_type_to_pg (str "a") (str "WKB_BLOB" ++ brackets 1)
        ≡ ok (str "WKB_TEXT" ++ brackets 1))
    × (duckdb_type_to_pg (str "a") (str "UTINYINT" ++ brackets 1)
        ≡ ok (str "INTEGER" ++ brackets 1))
duckdb_type_to_pg_shadowed_example = duckdb_type_to_pg_shadowed (str "a") 1

from_name-handler_name_of_example : from_name (handler_name_of csv) ≡ csv
from_name-handler_name_of_example = from_name-handler_name_of csv

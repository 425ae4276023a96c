-- ===== src/Tests/Views.antt =====
-- src/duckdb: statements for concrete options, and a view that is registered twice.
use pg_analytics.Prelude.{[], ◌∷◌, ◌++◌, ◌≡◌, refl, map, arith}
use pg_analytics.Text.{str, concat, same, split, join, trim, is_whitespace}
use pg_analytics.Result.{ok}
use pg_analytics.Options.{OptionMap, get, is_empty}
use pg_analytics.Options.Reference.{view_statement}
use pg_analytics.Duckdb.Utils.{quote, format_csv, format_csv-join}
use pg_analytics.Duckdb.Csv.{csv_options}
use pg_analytics.Duckdb.Csv as Csv
use pg_analytics.Duckdb.Csv.Arguments as CsvArguments
use pg_analytics.Duckdb.Json.{json_options}
use pg_analytics.Duckdb.Json as Json
use pg_analytics.Duckdb.Json.Arguments as JsonArguments
use pg_analytics.Duckdb.Parquet.{parquet_options}
use pg_analytics.Duckdb.Parquet as Parquet
use pg_analytics.Duckdb.Parquet.Arguments as ParquetArguments
use pg_analytics.Duckdb.Iceberg.{iceberg_options}
use pg_analytics.Duckdb.Iceberg as Iceberg
use pg_analytics.Duckdb.Iceberg.Arguments as IcebergArguments
use pg_analytics.Duckdb.Secret.{user_mapping_options, create_secret}
use pg_analytics.Duckdb.Spatial.{spatial_options}
use pg_analytics.Duckdb.Spatial as Spatial
use pg_analytics.Duckdb.Spatial.Arguments as SpatialArguments
use pg_analytics.Duckdb.Secret as Secret
use pg_analytics.Duckdb.Secret.Arguments as SecretArguments

abbrev files_map : OptionMap
files_map = (str "files", str "/data/a.csv") ∷ (str "select", str "a, b") ∷ []

csv_create_view-eq_example :
    Csv.create_view (str "t") (str "main") files_map
    ≡ ok (
        view_statement
          (str "read_csv")
          (str "main")
          (str "t")
          (str "a, b")
          (quote (str "/data/a.csv") ∷ []))
unfolding get Csv.as_ref str same CsvArguments.style Csv.iter format_csv split csv_options
csv_create_view-eq_example = CsvArguments.csv_create_view-eq (str "t") (str "main") files_map

json_create_view-eq_example :
    Json.create_view (str "t") (str "main") files_map
    ≡ ok (
        view_statement
          (str "read_json")
          (str "main")
          (str "t")
          (str "a, b")
          (quote (str "/data/a.csv") ∷ []))
unfolding get Json.as_ref str same JsonArguments.style Json.iter format_csv split json_options
json_create_view-eq_example = JsonArguments.json_create_view-eq (str "t") (str "main") files_map

parquet_create_view-eq_example :
    Parquet.create_view (str "t") (str "main") files_map
    ≡ ok (
        view_statement
          (str "read_parquet")
          (str "main")
          (str "t")
          (str "a, b")
          (quote (str "/data/a.csv") ∷ []))
unfolding get Parquet.as_ref str same ParquetArguments.style Parquet.iter format_csv split
    parquet_options
parquet_create_view-eq_example =
    ParquetArguments.parquet_create_view-eq (str "t") (str "main") files_map

iceberg_create_view-eq_example :
    Iceberg.create_view (str "t") (str "main") files_map
    ≡ ok (
        view_statement
          (str "iceberg_scan")
          (str "main")
          (str "t")
          (str "a, b")
          (quote (str "/data/a.csv") ∷ []))
unfolding get Iceberg.as_ref str same IcebergArguments.style Iceberg.iter quote iceberg_options
    concat
iceberg_create_view-eq_example =
    IcebergArguments.iceberg_create_view-eq (str "t") (str "main") files_map

spatial_create_view-eq_example :
    Spatial.create_view (str "t") (str "main") files_map
    ≡ ok
        (view_statement (str "st_read") (str "main") (str "t") (str "*") (str "'/data/a.csv'" ∷ []))
unfolding get Spatial.as_ref str same SpatialArguments.spatial_passed Spatial.iter spatial_options
    concat
spatial_create_view-eq_example =
    SpatialArguments.spatial_create_view-eq (str "t") (str "main") files_map

abbrev secret_map : OptionMap
secret_map = (str "type", str "S3") ∷ (str "key_id", str "id") ∷ []

create_secret-eq_example :
    create_secret (str "default_secret") secret_map
    ≡ ok (
        SecretArguments.secret_statement
          (str "default_secret")
          (str "TYPE S3" ∷ str "KEY_ID 'id'" ∷ []))
unfolding get Secret.as_ref str same SecretArguments.style Secret.iter is_empty concat
    user_mapping_options
create_secret-eq_example = SecretArguments.create_secret-eq (str "default_secret") secret_map

format_csv-join_example :
    format_csv (join (str ", ") (str "a.csv" ∷ str "b.csv" ∷ []))
    ≡ str "[" ++ (join (str ", ") (map quote (str "a.csv" ∷ str "b.csv" ∷ [])) ++ str "]")
unfolding str trim is_whitespace
format_csv-join_example =
    format_csv-join (str "a.csv") (str "b.csv") [] (omega arith) (refl, (refl, tt))

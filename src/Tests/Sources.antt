-- ===== src/Tests/Sources.antt =====
-- The unit tests of src/duckdb, as far as they compare a statement with a text.
use pg_analytics.Prelude.{[], ◌∷◌, ◌≡◌, refl}
use pg_analytics.Text.{str, same, concat, join}
use pg_analytics.Result.{ok}
use pg_analytics.Options.{get}
use pg_analytics.Duckdb.Csv as Csv
use pg_analytics.Duckdb.Json as Json
use pg_analytics.Duckdb.Parquet as Parquet
use pg_analytics.Duckdb.Delta as Delta
use pg_analytics.Duckdb.Iceberg as Iceberg
use pg_analytics.Duckdb.Spatial as Spatial
use pg_analytics.Duckdb.Secret as Secret

test_create_csv_view_single_file :
    Csv.create_view (str "test") (str "main") ((Csv.as_ref Csv.files, str "/data/file.csv") ∷ [])
    ≡ ok (str "CREATE VIEW IF NOT EXISTS main.test AS SELECT * FROM read_csv('/data/file.csv')")
unfolding Csv.create_view get Csv.as_ref str same concat join pg_analytics.Duckdb.Utils.format_csv
    pg_analytics.Text.split pg_analytics.Duckdb.Utils.quote
test_create_csv_view_single_file = refl

test_create_csv_view_multiple_files :
    Csv.create_view
      (str "test")
      (str "main")
      ((Csv.as_ref Csv.files, str "/data/file1.csv, /data/file2.csv") ∷ [])
    ≡ ok (
        str
          "CREATE VIEW IF NOT EXISTS main.test AS SELECT * FROM read_csv(['/data/file1.csv', '/data/file2.csv'])")
unfolding Csv.create_view get Csv.as_ref str same concat join pg_analytics.Duckdb.Utils.format_csv
    pg_analytics.Text.split pg_analytics.Duckdb.Utils.quote pg_analytics.Text.trim
    pg_analytics.Text.is_whitespace
test_create_csv_view_multiple_files = refl

test_create_csv_view_with_options :
    Csv.create_view (str "test") (str "main") (
      (Csv.as_ref Csv.files, str "/data/file.csv")
      ∷ (Csv.as_ref Csv.all_varchar, str "true")
      ∷ (Csv.as_ref Csv.allow_quoted_nulls, str "true")
      ∷ (Csv.as_ref Csv.auto_detect, str "true")
      ∷ (Csv.as_ref Csv.auto_type_candidates, str "BIGINT, DATE")
      ∷ (Csv.as_ref Csv.columns, str "{'col1': 'INTEGER', 'col2': 'VARCHAR'}")
      ∷ (Csv.as_ref Csv.compression, str "gzip")
      ∷ (Csv.as_ref Csv.dateformat, str "%d/%m/%Y")
      ∷ (Csv.as_ref Csv.decimal_separator, str ".")
      ∷ (Csv.as_ref Csv.delim, str ",")
      ∷ (Csv.as_ref Csv.escape, str "\"")
      ∷ (Csv.as_ref Csv.filename, str "true")
      ∷ (Csv.as_ref Csv.force_not_null, str "col1, col2")
      ∷ (Csv.as_ref Csv.header, str "true")
      ∷ (Csv.as_ref Csv.hive_partitioning, str "true")
      ∷ (Csv.as_ref Csv.hive_types, str "true")
      ∷ (Csv.as_ref Csv.hive_types_autocast, str "true")
      ∷ (Csv.as_ref Csv.ignore_errors, str "true")
      ∷ (Csv.as_ref Csv.max_line_size, str "1000")
      ∷ (Csv.as_ref Csv.names, str "col1, col2")
      ∷ (Csv.as_ref Csv.new_line, str "\n")
      ∷ (Csv.as_ref Csv.normalize_names, str "true")
      ∷ (Csv.as_ref Csv.null_padding, str "true")
      ∷ (Csv.as_ref Csv.nullstr, str "none, null")
      ∷ (Csv.as_ref Csv.parallel, str "true")
      ∷ (Csv.as_ref Csv.quote, str "\"")
      ∷ (Csv.as_ref Csv.sample_size, str "100")
      ∷ (Csv.as_ref Csv.sep, str ",")
      ∷ (Csv.as_ref Csv.skip, str "0")
      ∷ (Csv.as_ref Csv.timestampformat, str "yyyy-MM-dd HH:mm:ss")
      ∷ (Csv.as_ref Csv.types, str "BIGINT, VARCHAR")
      ∷ (Csv.as_ref Csv.union_by_name, str "true")
      ∷ [])
    ≡ ok (
        str
          "CREATE VIEW IF NOT EXISTS main.test AS SELECT * FROM read_csv('/data/file.csv', all_varchar = true, allow_quoted_nulls = true, auto_detect = true, auto_type_candidates = ['BIGINT', 'DATE'], columns = {'col1': 'INTEGER', 'col2': 'VARCHAR'}, compression = 'gzip', dateformat = '%d/%m/%Y', decimal_separator = '.', delim = ',', escape = '\"', filename = true, force_not_null = ['col1', 'col2'], header = true, hive_partitioning = true, hive_types = true, hive_types_autocast = true, ignore_errors = true, max_line_size = 1000, names = ['col1', 'col2'], new_line = '\n', normalize_names = true, null_padding = true, nullstr = ['none', 'null'], parallel = true, quote = '\"', sample_size = 100, sep = ',', skip = 0, timestampformat = 'yyyy-MM-dd HH:mm:ss', types = ['BIGINT', 'VARCHAR'], union_by_name = true)")
unfolding Csv.create_view get Csv.as_ref str same concat join pg_analytics.Duckdb.Utils.format_csv
    pg_analytics.Text.split pg_analytics.Duckdb.Utils.quote pg_analytics.Text.trim
    pg_analytics.Text.is_whitespace
test_create_csv_view_with_options = refl

test_create_json_view_basic :
    Json.create_view
      (str "json_test")
      (str "main")
      ((Json.as_ref Json.files, str "/data/file1.json") ∷ [])
    ≡ ok (
        str
          "CREATE VIEW IF NOT EXISTS main.json_test AS SELECT * FROM read_json('/data/file1.json')")
unfolding Json.create_view get Json.as_ref str same concat join pg_analytics.Duckdb.Utils.format_csv
    pg_analytics.Text.split pg_analytics.Duckdb.Utils.quote
test_create_json_view_basic = refl

test_create_json_view_with_options :
    Json.create_view (str "json_test") (str "main") (
      (Json.as_ref Json.files, str "/data/file1.json, /data/file2.json")
      ∷ (Json.as_ref Json.columns, str "{'key1': 'INTEGER', 'key2': 'VARCHAR'}")
      ∷ (Json.as_ref Json.compression, str "uncompressed")
      ∷ (Json.as_ref Json.convert_strings_to_integers, str "false")
      ∷ (Json.as_ref Json.dateformat, str "%d/%m/%Y")
      ∷ (Json.as_ref Json.filename, str "true")
      ∷ (Json.as_ref Json.format, str "array")
      ∷ (Json.as_ref Json.hive_partitioning, str "false")
      ∷ (Json.as_ref Json.ignore_errors, str "true")
      ∷ (Json.as_ref Json.maximum_depth, str "4096")
      ∷ (Json.as_ref Json.maximum_object_size, str "65536")
      ∷ (Json.as_ref Json.records, str "auto")
      ∷ (Json.as_ref Json.sample_size, str "-1")
      ∷ (Json.as_ref Json.select, str "key1")
      ∷ (Json.as_ref Json.timestampformat, str "yyyy-MM-dd")
      ∷ (Json.as_ref Json.union_by_name, str "true")
      ∷ [])
    ≡ ok (
        str
          "CREATE VIEW IF NOT EXISTS main.json_test AS SELECT key1 FROM read_json(['/data/file1.json', '/data/file2.json'], columns = {'key1': 'INTEGER', 'key2': 'VARCHAR'}, compression = 'uncompressed', convert_strings_to_integers = false, dateformat = '%d/%m/%Y', filename = true, format = 'array', hive_partitioning = false, ignore_errors = true, maximum_depth = 4096, maximum_object_size = 65536, records = auto, sample_size = -1, timestampformat = 'yyyy-MM-dd', union_by_name = true)")
unfolding Json.create_view get Json.as_ref str same concat join pg_analytics.Duckdb.Utils.format_csv
    pg_analytics.Text.split pg_analytics.Duckdb.Utils.quote pg_analytics.Text.trim
    pg_analytics.Text.is_whitespace
test_create_json_view_with_options = refl

test_create_parquet_view_single_file :
    Parquet.create_view
      (str "test")
      (str "main")
      ((Parquet.as_ref Parquet.files, str "/data/file.parquet") ∷ [])
    ≡ ok (
        str
          "CREATE VIEW IF NOT EXISTS main.test AS SELECT * FROM read_parquet('/data/file.parquet')")
unfolding Parquet.create_view get Parquet.as_ref str same concat join
    pg_analytics.Duckdb.Utils.format_csv pg_analytics.Text.split pg_analytics.Duckdb.Utils.quote
test_create_parquet_view_single_file = refl

test_create_parquet_view_multiple_files :
    Parquet.create_view
      (str "test")
      (str "main")
      ((Parquet.as_ref Parquet.files, str "/data/file1.parquet, /data/file2.parquet") ∷ [])
    ≡ ok (
        str
          "CREATE VIEW IF NOT EXISTS main.test AS SELECT * FROM read_parquet(['/data/file1.parquet', '/data/file2.parquet'])")
unfolding Parquet.create_view get Parquet.as_ref str same concat join
    pg_analytics.Duckdb.Utils.format_csv pg_analytics.Text.split pg_analytics.Duckdb.Utils.quote
    pg_analytics.Text.trim pg_analytics.Text.is_whitespace
test_create_parquet_view_multiple_files = refl

test_create_parquet_view_with_options :
    Parquet.create_view (str "test") (str "main") (
      (Parquet.as_ref Parquet.files, str "/data/file.parquet")
      ∷ (Parquet.as_ref Parquet.binary_as_string, str "true")
      ∷ (Parquet.as_ref Parquet.file_name, str "false")
      ∷ (Parquet.as_ref Parquet.file_row_number, str "true")
      ∷ (Parquet.as_ref Parquet.hive_partitioning, str "true")
      ∷ (Parquet.as_ref Parquet.hive_types, str "{'release': DATE, 'orders': BIGINT}")
      ∷ (Parquet.as_ref Parquet.hive_types_autocast, str "true")
      ∷ (Parquet.as_ref Parquet.union_by_name, str "true")
      ∷ [])
    ≡ ok (
        str
          "CREATE VIEW IF NOT EXISTS main.test AS SELECT * FROM read_parquet('/data/file.parquet', binary_as_string = true, filename = false, file_row_number = true, hive_partitioning = true, hive_types = {'release': DATE, 'orders': BIGINT}, hive_types_autocast = true, union_by_name = true)")
unfolding Parquet.create_view get Parquet.as_ref str same concat join
    pg_analytics.Duckdb.Utils.format_csv pg_analytics.Text.split pg_analytics.Duckdb.Utils.quote
test_create_parquet_view_with_options = refl

test_create_delta_view :
    Delta.create_view (str "test") (str "main") ((Delta.as_ref Delta.files, str "/data/delta") ∷ [])
    ≡ ok (str "CREATE VIEW IF NOT EXISTS main.test AS SELECT * FROM delta_scan('/data/delta')")
unfolding Delta.create_view get Delta.as_ref str same concat
test_create_delta_view = refl

test_create_iceberg_view :
    Iceberg.create_view
      (str "test")
      (str "main")
      ((Iceberg.as_ref Iceberg.files, str "/data/iceberg") ∷ [])
    ≡ ok (str "CREATE VIEW IF NOT EXISTS main.test AS SELECT * FROM iceberg_scan('/data/iceberg')")
unfolding Iceberg.create_view get Iceberg.as_ref str same concat join
test_create_iceberg_view = refl

test_create_spatial_view :
    Spatial.create_view
      (str "test")
      (str "main")
      ((Spatial.as_ref Spatial.files, str "/data/spatial") ∷ [])
    ≡ ok (str "CREATE VIEW IF NOT EXISTS main.test AS SELECT * FROM st_read('/data/spatial')")
unfolding Spatial.create_view get Spatial.as_ref str same pg_analytics.Options.contains_key concat
    join Spatial.iter
test_create_spatial_view = refl

test_create_s3_secret_config_valid :
    Secret.create_secret (str "s3_secret") (
      (Secret.as_ref Secret.type, str "S3")
      ∷ (Secret.as_ref Secret.provider, str "CONFIG")
      ∷ (Secret.as_ref Secret.key_id, str "key_id")
      ∷ (Secret.as_ref Secret.secret, str "secret")
      ∷ (Secret.as_ref Secret.region, str "us-west-2")
      ∷ (Secret.as_ref Secret.session_token, str "session_token")
      ∷ (Secret.as_ref Secret.endpoint, str "s3.amazonaws.com")
      ∷ (Secret.as_ref Secret.url_style, str "vhost")
      ∷ (Secret.as_ref Secret.use_ssl, str "true")
      ∷ (Secret.as_ref Secret.url_compatibility_mode, str "true")
      ∷ [])
    ≡ ok (
        str
          "CREATE OR REPLACE SECRET s3_secret (TYPE S3, PROVIDER CONFIG, KEY_ID 'key_id', SECRET 'secret', REGION 'us-west-2', SESSION_TOKEN 'session_token', ENDPOINT 's3.amazonaws.com', URL_STYLE 'vhost', USE_SSL true, URL_COMPATIBILITY_MODE true)")
unfolding Secret.create_secret get Secret.as_ref str same pg_analytics.Options.is_empty concat join
test_create_s3_secret_config_valid = refl

test_create_azure_secret_valid :
    Secret.create_secret (str "azure_secret") (
      (Secret.as_ref Secret.type, str "AZURE")
      ∷ (Secret.as_ref Secret.provider, str "CONFIG")
      ∷ (Secret.as_ref Secret.connection_string, str "connection_string")
      ∷ (Secret.as_ref Secret.http_proxy, str "http_proxy")
      ∷ (Secret.as_ref Secret.proxy_user_name, str "proxy_user_name")
      ∷ (Secret.as_ref Secret.proxy_password, str "proxy_password")
      ∷ [])
    ≡ ok (
        str
          "CREATE OR REPLACE SECRET azure_secret (TYPE AZURE, PROVIDER CONFIG, CONNECTION_STRING 'connection_string', HTTP_PROXY 'http_proxy', PROXY_USER_NAME 'proxy_user_name', PROXY_PASSWORD 'proxy_password')")
unfolding Secret.create_secret get Secret.as_ref str same pg_analytics.Options.is_empty concat join
test_create_azure_secret_valid = refl

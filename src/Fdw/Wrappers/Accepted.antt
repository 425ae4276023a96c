-- ===== src/Fdw/Wrappers/Accepted.antt =====
-- The validators against what is built from the options later: options that were accepted never
-- lack what a view or a secret requires.
pub mod Stored
use pg_analytics.Prelude.{arith, false, Option, some, ◌≡◌, refl}
use pg_analytics.Text.{Text, str}
use pg_analytics.Result.{Result, ok, err, error, IsOk}
use pg_analytics.Options.{OptionMap, get}
use pg_analytics.Options.Lookup.{is_empty-get, contains_key-get}
use pg_analytics.Duckdb.Csv
use pg_analytics.Duckdb.Csv.{CsvOption, csv_options}
use pg_analytics.Duckdb.Json
use pg_analytics.Duckdb.Json.{JsonOption, json_options}
use pg_analytics.Duckdb.Parquet
use pg_analytics.Duckdb.Parquet.{ParquetOption, parquet_options}
use pg_analytics.Duckdb.Delta
use pg_analytics.Duckdb.Delta.{DeltaOption, delta_options}
use pg_analytics.Duckdb.Iceberg
use pg_analytics.Duckdb.Iceberg.{IcebergOption, iceberg_options}
use pg_analytics.Duckdb.Spatial
use pg_analytics.Duckdb.Spatial.{SpatialOption, spatial_options}
use pg_analytics.Duckdb.Secret
use pg_analytics.Duckdb.Secret.{UserMappingOptions, user_mapping_options, create_secret}
use pg_analytics.Fdw.Handler.{
  FdwHandler, csv, json, parquet, delta, iceberg, spatial, other, is_other,
}
use pg_analytics.Text.Join.{Lacks}
use pg_analytics.Fdw.Validate.{OptList, OptionCheck, Given, validate_mapping_option}
use pg_analytics.Fdw.Validate.Exact.{validate_mapping_option_iff}
use pg_analytics.Fdw.Wrappers.{
  Catalog, foreign_table, user_mapping, csv_validator, json_validator, parquet_validator,
  delta_validator, iceberg_validator, spatial_validator,
}

-- The map holds each option that the list gives, by a name without `=`: what PostgreSQL stores of
-- accepted options, and `options_to_hashmap` reads back.
abbrev pub Stores : OptList → OptionMap → Type 0
Stores opts m =
    (name : Text) → Lacks b'=' name → Given name opts → (value : Text) × (get m name ≡ some value)

files_plain : Lacks b'=' (str "files")
unfolding str
files_plain = omega arith

type_plain : Lacks b'=' (str "type")
unfolding str
type_plain = omega arith

-- The validator of the wrapper with the handler.
abbrev pub validator_of : OptionCheck → FdwHandler → OptList → Option Catalog → Result (Unit {0})
validator_of c csv opts catalog = csv_validator c opts catalog
validator_of c json opts catalog = json_validator c opts catalog
validator_of c parquet opts catalog = parquet_validator c opts catalog
validator_of c delta opts catalog = delta_validator c opts catalog
validator_of c iceberg opts catalog = iceberg_validator c opts catalog
validator_of c spatial opts catalog = spatial_validator c opts catalog
validator_of c other opts catalog = ok tt

-- The view of the wrapper with the handler.
abbrev pub create_view_of : FdwHandler → Text → Text → OptionMap → Result Text
create_view_of csv = Csv.create_view
create_view_of json = Json.create_view
create_view_of parquet = Parquet.create_view
create_view_of delta = Delta.create_view
create_view_of iceberg = Iceberg.create_view
create_view_of spatial = Spatial.create_view
create_view_of other = λ t s m. err (error (str "got unexpected fdw_handler"))

csv_files_stored :
    (c : OptionCheck) (opts : OptList) (m : OptionMap)
    → IsOk (validate_mapping_option CsvOption c opts)
    → Stores opts m
    → (value : Text) × (get m (str "files") ≡ some value)
unfolding Csv.iter Csv.as_ref Csv.is_required csv_options
csv_files_stored c opts m h stored =
    stored _ files_plain
      (((validate_mapping_option_iff CsvOption c opts).0 h).1.1.1.1.1.1.1.1.1.1.1.1.0 refl)

json_files_stored :
    (c : OptionCheck) (opts : OptList) (m : OptionMap)
    → IsOk (validate_mapping_option JsonOption c opts)
    → Stores opts m
    → (value : Text) × (get m (str "files") ≡ some value)
unfolding Json.iter Json.as_ref Json.is_required json_options
json_files_stored c opts m h stored =
    stored _ files_plain
      (((validate_mapping_option_iff JsonOption c opts).0 h).1.1.1.1.1.1.1.0 refl)

parquet_files_stored :
    (c : OptionCheck) (opts : OptList) (m : OptionMap)
    → IsOk (validate_mapping_option ParquetOption c opts)
    → Stores opts m
    → (value : Text) × (get m (str "files") ≡ some value)
unfolding Parquet.iter Parquet.as_ref Parquet.is_required parquet_options
parquet_files_stored c opts m h stored =
    stored _ files_plain (((validate_mapping_option_iff ParquetOption c opts).0 h).1.1.1.1.0 refl)

delta_files_stored :
    (c : OptionCheck) (opts : OptList) (m : OptionMap)
    → IsOk (validate_mapping_option DeltaOption c opts)
    → Stores opts m
    → (value : Text) × (get m (str "files") ≡ some value)
unfolding Delta.iter Delta.as_ref Delta.is_required delta_options
delta_files_stored c opts m h stored =
    stored _ files_plain (((validate_mapping_option_iff DeltaOption c opts).0 h).1.0 refl)

iceberg_files_stored :
    (c : OptionCheck) (opts : OptList) (m : OptionMap)
    → IsOk (validate_mapping_option IcebergOption c opts)
    → Stores opts m
    → (value : Text) × (get m (str "files") ≡ some value)
unfolding Iceberg.iter Iceberg.as_ref Iceberg.is_required iceberg_options
iceberg_files_stored c opts m h stored =
    stored _ files_plain (((validate_mapping_option_iff IcebergOption c opts).0 h).1.1.1.1.0 refl)

spatial_files_stored :
    (c : OptionCheck) (opts : OptList) (m : OptionMap)
    → IsOk (validate_mapping_option SpatialOption c opts)
    → Stores opts m
    → (value : Text) × (get m (str "files") ≡ some value)
unfolding Spatial.iter Spatial.as_ref Spatial.is_required spatial_options
spatial_files_stored c opts m h stored =
    stored _ files_plain (((validate_mapping_option_iff SpatialOption c opts).0 h).1.0 refl)

csv_created :
    (m : OptionMap) (t s : Text)
    → (value : Text) × (get m (str "files") ≡ some value)
    → IsOk (Csv.create_view t s m)
unfolding Csv.create_view Csv.as_ref
csv_created m t s (value, e) = rw e tt

json_created :
    (m : OptionMap) (t s : Text)
    → (value : Text) × (get m (str "files") ≡ some value)
    → IsOk (Json.create_view t s m)
unfolding Json.create_view Json.as_ref
json_created m t s (value, e) = rw e tt

parquet_created :
    (m : OptionMap) (t s : Text)
    → (value : Text) × (get m (str "files") ≡ some value)
    → IsOk (Parquet.create_view t s m)
unfolding Parquet.create_view Parquet.as_ref
parquet_created m t s (value, e) = rw e tt

delta_created :
    (m : OptionMap) (t s : Text)
    → (value : Text) × (get m (str "files") ≡ some value)
    → IsOk (Delta.create_view t s m)
unfolding Delta.create_view Delta.as_ref
delta_created m t s (value, e) = rw e tt

iceberg_created :
    (m : OptionMap) (t s : Text)
    → (value : Text) × (get m (str "files") ≡ some value)
    → IsOk (Iceberg.create_view t s m)
unfolding Iceberg.create_view Iceberg.as_ref
iceberg_created m t s (value, e) = rw e tt

spatial_created :
    (m : OptionMap) (t s : Text)
    → (value : Text) × (get m (str "files") ≡ some value)
    → IsOk (Spatial.create_view t s m)
unfolding Spatial.create_view Spatial.as_ref
spatial_created m t s (value, e) = rw (contains_key-get (str "files") m value e) tt

-- If the validator of a wrapper accepts the options of a foreign table, and the table's map of
-- options holds them, then building the view of that wrapper succeeds, for every table and schema
-- name.
pub validated-create_view :
    (c : OptionCheck) (h : FdwHandler) (opts : OptList) (m : OptionMap)
    (table_name schema_name : Text)
    → is_other h ≡ false
    → IsOk (validator_of c h opts (some foreign_table))
    → Stores opts m
    → IsOk (create_view_of h table_name schema_name m)
unfolding is_other
validated-create_view c csv opts m t s n v stored =
    csv_created m t s (csv_files_stored c opts m (unfold csv_validator in v) stored)
validated-create_view c json opts m t s n v stored =
    json_created m t s (json_files_stored c opts m (unfold json_validator in v) stored)
validated-create_view c parquet opts m t s n v stored =
    parquet_created m t s (parquet_files_stored c opts m (unfold parquet_validator in v) stored)
validated-create_view c delta opts m t s n v stored =
    delta_created m t s (delta_files_stored c opts m (unfold delta_validator in v) stored)
validated-create_view c iceberg opts m t s n v stored =
    iceberg_created m t s (iceberg_files_stored c opts m (unfold iceberg_validator in v) stored)
validated-create_view c spatial opts m t s n v stored =
    spatial_created m t s (spatial_files_stored c opts m (unfold spatial_validator in v) stored)
validated-create_view c other opts m t s n v stored = cc

type_stored :
    (c : OptionCheck) (opts : OptList) (m : OptionMap)
    → IsOk (validate_mapping_option UserMappingOptions c opts)
    → Stores opts m
    → (value : Text) × (get m (str "type") ≡ some value)
unfolding Secret.iter Secret.as_ref Secret.is_required user_mapping_options
type_stored c opts m h stored =
    stored _ type_plain (((validate_mapping_option_iff UserMappingOptions c opts).0 h).1.0 refl)

secret_created :
    (m : OptionMap) (name : Text)
    → (value : Text) × (get m (str "type") ≡ some value)
    → IsOk (create_secret name m)
unfolding create_secret Secret.as_ref
secret_created m name (value, e) = rw (is_empty-get (str "type") m value e, e) tt

-- If the validator of any wrapper accepts the options of a user mapping, and the map of options
-- holds them, then building the secret succeeds, for every name of it.
pub validated-create_secret :
    (c : OptionCheck) (h : FdwHandler) (opts : OptList) (m : OptionMap) (secret_name : Text)
    → is_other h ≡ false
    → IsOk (validator_of c h opts (some user_mapping))
    → Stores opts m
    → IsOk (create_secret secret_name m)
unfolding is_other
validated-create_secret c csv opts m name n v stored =
    secret_created m name (type_stored c opts m (unfold csv_validator in v) stored)
validated-create_secret c json opts m name n v stored =
    secret_created m name (type_stored c opts m (unfold json_validator in v) stored)
validated-create_secret c parquet opts m name n v stored =
    secret_created m name (type_stored c opts m (unfold parquet_validator in v) stored)
validated-create_secret c delta opts m name n v stored =
    secret_created m name (type_stored c opts m (unfold delta_validator in v) stored)
validated-create_secret c iceberg opts m name n v stored =
    secret_created m name (type_stored c opts m (unfold iceberg_validator in v) stored)
validated-create_secret c spatial opts m name n v stored =
    secret_created m name (type_stored c opts m (unfold spatial_validator in v) stored)
validated-create_secret c other opts m name n v stored = cc

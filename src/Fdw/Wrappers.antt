-- ===== src/Fdw/Wrappers.antt =====
-- src/fdw/{csv,json,parquet,delta,iceberg,spatial}.rs: the validator of each wrapper.
-- The six files differ in the enum of their options only.
pub mod Accepted
use pg_analytics.Prelude.{Option, none, some}
use pg_analytics.Result.{Result, ok}
use pg_analytics.Duckdb.Csv.{CsvOption, csv_options}
use pg_analytics.Duckdb.Json.{JsonOption, json_options}
use pg_analytics.Duckdb.Parquet.{ParquetOption, parquet_options}
use pg_analytics.Duckdb.Delta.{DeltaOption, delta_options}
use pg_analytics.Duckdb.Iceberg.{IcebergOption, iceberg_options}
use pg_analytics.Duckdb.Spatial.{SpatialOption, spatial_options}
use pg_analytics.Duckdb.Secret.{UserMappingOptions, user_mapping_options}
use pg_analytics.Fdw.Validate.{OptList, OptionCheck, validate_mapping_option}

-- The catalog relation, by its oid, that the options belong to.
pub data Catalog : Type 0 where
  foreign_data_wrapper foreign_server foreign_table user_mapping other_relation : Catalog

-- The `match` on the catalog, over the results of its two arms that check something.
unfoldable pub by_catalog :
    Option Catalog → Result (Unit {0}) → Result (Unit {0}) → Result (Unit {0})
by_catalog none tables mappings = ok tt
by_catalog (some foreign_table) tables mappings = tables
by_catalog (some user_mapping) tables mappings = mappings
by_catalog (some _) tables mappings = ok tt

module _ (c : OptionCheck) (opt_list : OptList) (catalog : Option Catalog) where
  unfoldable pub csv_validator : Result (Unit {0})
  unfolding by_catalog
  csv_validator =
      by_catalog catalog (validate_mapping_option CsvOption c opt_list)
        (validate_mapping_option UserMappingOptions c opt_list)

  unfoldable pub json_validator : Result (Unit {0})
  unfolding by_catalog
  json_validator =
      by_catalog catalog (validate_mapping_option JsonOption c opt_list)
        (validate_mapping_option UserMappingOptions c opt_list)

  unfoldable pub parquet_validator : Result (Unit {0})
  unfolding by_catalog
  parquet_validator =
      by_catalog catalog (validate_mapping_option ParquetOption c opt_list)
        (validate_mapping_option UserMappingOptions c opt_list)

  unfoldable pub delta_validator : Result (Unit {0})
  unfolding by_catalog
  delta_validator =
      by_catalog catalog (validate_mapping_option DeltaOption c opt_list)
        (validate_mapping_option UserMappingOptions c opt_list)

  unfoldable pub iceberg_validator : Result (Unit {0})
  unfolding by_catalog
  iceberg_validator =
      by_catalog catalog (validate_mapping_option IcebergOption c opt_list)
        (validate_mapping_option UserMappingOptions c opt_list)

  unfoldable pub spatial_validator : Result (Unit {0})
  unfolding by_catalog
  spatial_validator =
      by_catalog catalog (validate_mapping_option SpatialOption c opt_list)
        (validate_mapping_option UserMappingOptions c opt_list)

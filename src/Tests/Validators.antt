-- ===== src/Tests/Validators.antt =====
-- src/fdw: options that the validators accept, and the statements that are built from them.
use pg_analytics.Prelude.{some, [], ◌∷◌, refl, ◌↔◌, All, flatten, map, arith}
use pg_analytics.Text.{str, same, split, starts_with}
use pg_analytics.Result.{IsOk}
use pg_analytics.Options.{OptionMap}
use pg_analytics.Duckdb.Parquet.{ParquetOption, parquet_options}
use pg_analytics.Duckdb.Parquet as Parquet
use pg_analytics.Duckdb.Secret.{UserMappingOptions}
use pg_analytics.Duckdb.Secret as Secret
use pg_analytics.Fdw.Handler.{parquet, is_other}
use pg_analytics.Fdw.Validate.{OptList, option_name, validate_mapping_option}
use pg_analytics.Fdw.Validate.Exact.{Among, RequiredGiven, validate_mapping_option_iff}
use pg_analytics.Fdw.Wrappers.{foreign_table, user_mapping, parquet_validator}
use pg_analytics.Fdw.Wrappers.Accepted.{
  Stores, validator_of, create_view_of, validated-create_view, validated-create_secret,
}
use pg_analytics.Duckdb.Secret.{create_secret}
use pg_analytics.Fdw.Wrappers.Accepted.Stored.{listed_options-Stores}
use pg_analytics.Tests.Toy.{prefix_check}

abbrev table_opts : OptList
table_opts = some (str "files=s3://a?v=1") ∷ []

abbrev table_map : OptionMap
table_map = (str "files", str "s3://a?v=1") ∷ []

accepted : IsOk (validator_of prefix_check parquet table_opts (some foreign_table))
unfolding parquet_validator validate_mapping_option option_name split str same Parquet.iter
    Parquet.as_ref Parquet.is_required starts_with parquet_options
accepted = tt

files_stored : Stores table_opts table_map
unfolding str
files_stored = listed_options-Stores table_map (omega arith)

abbrev secret_opts : OptList
secret_opts = some (str "type=S3") ∷ []

abbrev secret_map : OptionMap
secret_map = (str "type", str "S3") ∷ []

secret_stored : Stores secret_opts secret_map
unfolding str
secret_stored = listed_options-Stores secret_map (omega arith)

secret_accepted : IsOk (validator_of prefix_check parquet secret_opts (some user_mapping))
unfolding parquet_validator validate_mapping_option option_name split str same Secret.iter
    Secret.as_ref Secret.is_required starts_with Secret.user_mapping_options
secret_accepted = tt

validated-create_secret_example : IsOk (create_secret (str "default_secret") secret_map)
unfolding is_other
validated-create_secret_example =
    validated-create_secret prefix_check parquet secret_opts secret_map (str "default_secret") refl
      secret_accepted secret_stored

validated-create_view_example : IsOk (create_view_of parquet (str "t") (str "public") table_map)
unfolding is_other
validated-create_view_example =
    validated-create_view prefix_check parquet table_opts table_map (str "t") (str "public") refl
      accepted files_stored

validate_mapping_option_iff_example :
    IsOk (validate_mapping_option ParquetOption prefix_check table_opts) ↔ (
      All
        (λ n. Among n (map parquet_options.as_ref parquet_options.iter))
        (map option_name (flatten table_opts))
      × RequiredGiven ParquetOption prefix_check parquet_options.iter table_opts)
validate_mapping_option_iff_example =
    validate_mapping_option_iff ParquetOption prefix_check table_opts

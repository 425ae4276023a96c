-- ===== src/Datafusion/Provider.antt =====
-- src/datafusion/src/datafusion/provider.rs, and the file formats of
-- src/datafusion/src/datafusion/format.rs.
use pg_analytics.Prelude.{List, [], ◌∷◌, if◌then◌else◌}
use pg_analytics.Text.{Text, str, same, concat}
use pg_analytics.Result.{Result, ok, err, error, ◌>>=◌, ◌>>◌}
use pg_analytics.Datafusion.Attribute.{Field}

-- `AvroFormat`, `CsvFormat`, `JsonFormat`, `ParquetFormat`, each with the extension of its files.
pub data FileFormat : Type 0 where
  avro csv json parquet : FileFormat

-- The listing tables of DataFusion, and `str::to_lowercase`.
pub record Listings : Type 1 where
  pub ListingUrl : Type 0
  pub Schema : Type 0
  pub Provider : Type 0
  pub to_lowercase : Text → Text
  pub parse_listing_url : Text → Result ListingUrl
  pub session_context : Result (Unit {0})
  pub infer_schema : FileFormat → ListingUrl → Result Schema
  -- `ListingTable::try_new` for the configuration of a url, its format and its schema
  pub try_new : ListingUrl → FileFormat → Schema → Result Provider
  pub fields : Provider → List Field

-- `ListingOptions::try_from`, for the name in lower case
unfoldable pub listing_options : Text → Result FileFormat
unfolding same
listing_options name =
    if same name (str "avro")
    then ok avro
    else if same name (str "csv")
    then ok csv
    else if same name (str "json")
    then ok json
    else if same name (str "parquet")
    then ok parquet
    else err (
        error (
          concat (
            str "Invalid format " ∷ name ∷ str ". Options are avro, csv, json, and parquet." ∷ [])))

module _ (d : Listings) where
  open d use {Provider, to_lowercase, parse_listing_url, session_context, infer_schema, try_new}

  -- `create_listing_provider`
  unfoldable pub create_listing_provider : Text → Text → Result Provider
  unfolding listing_options
  create_listing_provider path extension = parse_listing_url path >>= λ listing_url.
      listing_options (to_lowercase extension) >>= λ format.
      session_context
      >> (infer_schema format listing_url >>= λ schema. try_new listing_url format schema)

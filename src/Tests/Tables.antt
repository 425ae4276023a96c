-- ===== src/Tests/Tables.antt =====
-- A schema of the earlier implementation with one table.
use pg_analytics.Prelude.{true, none, List, [], ◌∷◌, ◌≡◌, ◌⊎◌, refl, ap, sym, ◌∙◌}
use pg_analytics.Text.{Text, str, same}
use pg_analytics.Result.{Result, ok, err, error, Failure, ok_or}
use pg_analytics.Options.{get}
use pg_analytics.Fdw.Handler.{SystemCatalog}
use pg_analytics.Datafusion.Attribute.{Field}
use pg_analytics.Datafusion.Provider.{Listings}
use pg_analytics.Datafusion.Register.{Stores}
use pg_analytics.Datafusion.Schema.{
  PgTable, Database, SchemaTables, table_impl, check_fields, quoted,
}
use pg_analytics.Datafusion.Schema.Cached.{Checked, table_impl-Checked}
use pg_analytics.Tests.Arrays.{toy_libraries}
use pg_analytics.Tests.Lake.{toy_types, price, price_as_float8}

abbrev toy_listings : Listings
toy_listings = record {
  ListingUrl = Text;
  Schema = List Field;
  Provider = List Field;
  to_lowercase = λ t. t;
  parse_listing_url = λ t. ok t;
  session_context = ok tt;
  infer_schema = λ format url. ok (price ∷ []);
  try_new = λ url format schema. ok schema;
  fields = λ provider. provider;
}

abbrev toy_stores : Stores
toy_stores = record {
  ObjectStore = Unit;
  s3_operator = λ builder. ok tt;
  gcs_operator = λ builder. ok tt;
  azblob_operator = λ builder. ok tt;
  azdls_operator = λ builder. ok tt;
  local_file_system = tt;
  from_connection_string = λ t. ok [];
  session_context = ok tt;
  parse_url = λ t. ok record { host_str = none; url_path = t };
  require_option = λ name options. ok_or (get options name) (error name);
  require_option_or = λ name options default. default;
}

abbrev prices : PgTable
prices = record {
  oid = 16384;
  tuple_desc = price_as_float8 ∷ [];
  is_foreign_table = true;
  foreign_table_options = ok ((str "path", str "/prices") ∷ (str "extension", str "parquet") ∷ []);
  foreign_server_options = ok [];
  foreign_user_mapping_options = [];
  serverid = ok 1;
}

abbrev toy_catalog : SystemCatalog
toy_catalog = record {
  fdwid = λ server. server;
  fdwhandler = λ fdw. fdw;
  proname = λ handler. str "local_file_fdw_handler";
}

abbrev toy_database : Database
toy_database = record {
  open_with_name = λ name. ok prices;
  system_catalog = toy_catalog;
  same_url = λ a b. same a.url_path b.url_path;
}

abbrev no_tables : SchemaTables toy_libraries toy_types toy_listings toy_stores toy_database
no_tables = record { schema_name = str "public"; tables = []; stores = [] }

table_impl-prices :
    (table_impl toy_libraries toy_types toy_listings toy_stores toy_database
      (str "prices")
      no_tables).0
    ≡ ok (price ∷ [])
unfolding table_impl pg_analytics.Datafusion.Schema.table_of
    pg_analytics.Datafusion.Attribute.attribute_eq
table_impl-prices = refl

abbrev opened_or_prices : Result PgTable → PgTable
opened_or_prices (ok relation) = relation
opened_or_prices (err failure) = prices

one_relation :
    (a b : Text) (r r' : PgTable)
    → toy_database.open_with_name a ≡ ok r
    → toy_database.open_with_name b ≡ ok r'
    → r.oid ≡ r'.oid
    → r ≡ r'
one_relation a b r r' opened opened' same_oid = ap opened_or_prices (sym opened ∙ opened')

table_impl-Checked_example :
    let (r, after) =
      table_impl toy_libraries toy_types toy_listings toy_stores toy_database
        (str "prices")
        no_tables in
    Checked toy_libraries toy_types toy_listings toy_stores toy_database after
    × (((failure : Failure) × (r ≡ err failure) × (after.tables ≡ []))
        ⊎ ((relation : PgTable) × (provider : List Field) × (toy_database.open_with_name
                (quoted (str "public") (str "prices"))
              ≡ ok relation)
            × (r ≡ ok provider)
            × (check_fields toy_libraries toy_types toy_listings toy_stores toy_database provider
                  relation.tuple_desc
                ≡ ok tt)
            × (table_impl toy_libraries toy_types toy_listings toy_stores toy_database
                  (str "prices")
                  after
                ≡ (ok provider, after))))
table_impl-Checked_example =
    table_impl-Checked toy_libraries toy_types toy_listings toy_stores toy_database one_relation
      (str "prices") no_tables tt

-- ===== src/Datafusion/Azblob/Root.antt =====
-- The root of the builder of src/datafusion/src/fdw/azblob.rs.
use pg_analytics.Prelude.{none, some, [], ◌≡◌, refl}
use pg_analytics.Text.{Text, str}
use pg_analytics.Result.{Result, ok}
use pg_analytics.Options.{OptionMap, get}
use pg_analytics.Datafusion.Options.{Url, ObjectStoreConfig, TableFormat, plain, delta}
use pg_analytics.Datafusion.Store.{Builder, call}
use pg_analytics.Datafusion.Azblob.{
  azblob_builder, azblob_calls, connected, rooted, user_as_str, connection_string,
}

-- The configuration of a table of the given format.
abbrev pub config_of : TableFormat → Url → OptionMap → OptionMap → ObjectStoreConfig
config_of format url server_options user_mapping_options = record {
  url = url;
  table_format = format;
  server_options = server_options;
  user_mapping_options = user_mapping_options;
}

-- Without a connection string, the path of a Delta table becomes the root of the builder, in front of
-- the other calls. With one, the builder of a Delta table is that of a table of another format: the
-- root is lost.
pub azblob_builder_root :
    (from_connection_string : Text → Result Builder) (url : Url)
    (server_options without with_one : OptionMap) (text : Text)
    → get without (user_as_str connection_string) ≡ none
    → get with_one (user_as_str connection_string) ≡ some text
    → (azblob_builder from_connection_string (config_of delta url server_options without)
        ≡ ok (
            azblob_calls
              (config_of delta url server_options without)
              (call (str "root") url.url_path [])))
      × (azblob_builder from_connection_string (config_of delta url server_options with_one)
          ≡ azblob_builder from_connection_string (config_of plain url server_options with_one))
unfolding azblob_builder azblob_calls connected rooted
azblob_builder_root from_connection_string url server_options without with_one text no_text
      has_text =
    (rw no_text refl, rw has_text refl)

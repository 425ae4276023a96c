-- ===== src/Tests/Stores.antt =====
-- The object stores of the earlier implementation.
use pg_analytics.Prelude.{some, [], ◌∷◌, ◌≡◌, refl}
use pg_analytics.Text.{Text, str}
use pg_analytics.Result.{Result, ok}
use pg_analytics.Options.{OptionMap}
use pg_analytics.Datafusion.Options.{Url, plain, delta}
use pg_analytics.Datafusion.Store.{Builder, call}
use pg_analytics.Datafusion.Azblob.{azblob_builder, azblob_calls, user_as_str}
use pg_analytics.Datafusion.Azblob.Root.{config_of, azblob_builder_root}

abbrev blobs : Url
blobs = record { host_str = some (str "box"); url_path = str "/t" }

abbrev connections : OptionMap
connections = (str "connection_string", str "c") ∷ []

-- A builder that was made from a text.
abbrev from_text : Text → Result Builder
from_text t = ok (call (str "endpoint") t [])

azblob_builder_root_example :
    (azblob_builder from_text (config_of delta blobs [] [])
      ≡ ok (azblob_calls (config_of delta blobs [] []) (call (str "root") (str "/t") [])))
    × (azblob_builder from_text (config_of delta blobs [] connections)
        ≡ azblob_builder from_text (config_of plain blobs [] connections))
unfolding pg_analytics.Options.get pg_analytics.Text.same str user_as_str
azblob_builder_root_example =
    azblob_builder_root from_text blobs [] [] connections (str "c") refl refl

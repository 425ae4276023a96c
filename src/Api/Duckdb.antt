-- ===== src/Api/Duckdb.antt =====
-- src/api/duckdb.rs
use pg_analytics.Prelude.{Bool, Option, List, [], ◌∷◌}
use pg_analytics.Text.{Text, str, concat, join}
use pg_analytics.Result.{Result, ok, ◌>>=◌ as bind_result}
use pg_analytics.Exec.{Exec, pure, ◌>>◌, or_panic, or_panic_with}
use pg_analytics.Duckdb.Engine.{Engine}
use pg_analytics.Duckdb.Connection.{Globals}
use pg_analytics.Api.Rows.{RowReader, query_map}
use pg_analytics.Duckdb.Connection.{execute}

pub record DuckdbSettingsRow : Type 0 where
  pub name : Option Text
  pub value : Option Text
  pub description : Option Text
  pub input_type : Option Text
  pub scope : Option Text

pub record DuckdbExtensionsRow : Type 0 where
  pub extension_name : Option Text
  pub loaded : Option Bool
  pub installed : Option Bool
  pub install_path : Option Text
  pub description : Option Text
  pub aliases : Option Text
  pub extension_version : Option Text
  pub install_mode : Option Text
  pub installed_from : Option Text

module _ (e : Engine) (r : RowReader e) where
  open r use {Row, get_string, get_i32, get_i64, get_bool, get_value}

  -- The message of the panic has the error in its Debug form, which is a parameter.
  unfoldable pub duckdb_execute : (Text → Text) → Text → Exec (Globals e) Unit
  unfolding execute
  duckdb_execute debug query =
      or_panic_with (λ message. concat (str "error executing query: " ∷ debug message ∷ []))
        (execute e query >> pure tt)

  unfoldable pub duckdb_settings_row : Row → Result DuckdbSettingsRow
  duckdb_settings_row row = bind_result (get_string row 0) λ name.
      bind_result (get_string row 1) λ value. bind_result (get_string row 2) λ description.
        bind_result (get_string row 3) λ input_type. bind_result (get_string row 4) λ scope.
          ok (record {
            name = name;
            value = value;
            description = description;
            input_type = input_type;
            scope = scope;
          })

  unfoldable pub duckdb_settings_impl : Exec (Globals e) (List DuckdbSettingsRow)
  unfolding query_map
  duckdb_settings_impl = query_map e r duckdb_settings_row (str "SELECT * FROM duckdb_settings()")

  unfoldable pub duckdb_settings : Exec (Globals e) (List DuckdbSettingsRow)
  unfolding duckdb_settings_impl
  duckdb_settings = or_panic duckdb_settings_impl

  unfoldable pub duckdb_extensions_row : Row → Result DuckdbExtensionsRow
  duckdb_extensions_row row = bind_result (get_string row 0) λ extension_name.
      bind_result (get_bool row 1) λ loaded. bind_result (get_bool row 2) λ installed.
        bind_result (get_string row 3) λ install_path. bind_result (get_string row 4) λ description.
          bind_result (get_string row 5) λ aliases.
            bind_result (get_string row 6) λ extension_version.
              bind_result (get_string row 7) λ install_mode.
                bind_result (get_string row 8) λ installed_from. ok (record {
                  extension_name = extension_name;
                  loaded = loaded;
                  installed = installed;
                  install_path = install_path;
                  description = description;
                  aliases = aliases;
                  extension_version = extension_version;
                  install_mode = install_mode;
                  installed_from = installed_from;
                })

  -- The statement of the source, line by line.
  abbrev extensions_statement : Text
  extensions_statement = join (10 ∷ []) (
      str "SELECT"
      ∷ str "            extension_name,"
      ∷ str "            loaded,"
      ∷ str "            installed,"
      ∷ str "            install_path,"
      ∷ str "            description,"
      ∷ str "            aliases::varchar,"
      ∷ str "            extension_version,"
      ∷ str "            install_mode,"
      ∷ str "            installed_from"
      ∷ str "        FROM"
      ∷ str "            duckdb_extensions();"
      ∷ [])

  unfoldable pub duckdb_extensions_impl : Exec (Globals e) (List DuckdbExtensionsRow)
  unfolding query_map
  duckdb_extensions_impl = query_map e r duckdb_extensions_row extensions_statement

  unfoldable pub duckdb_extensions : Exec (Globals e) (List DuckdbExtensionsRow)
  unfolding duckdb_extensions_impl
  duckdb_extensions = or_panic duckdb_extensions_impl

-- ===== src/Api/Csv.antt =====
-- src/api/csv.rs
use pg_analytics.Prelude.{Bool, Option, none, some, List, [], ◌∷◌, suc}
use pg_analytics.Text.{Text, str, concat, join}
use pg_analytics.Result.{Result, ok, ◌>>=◌ as bind_result}
use pg_analytics.Exec.{Exec, or_panic}
use pg_analytics.Schema.Integers.{ℤ, pos, negsuc}
use pg_analytics.Duckdb.Engine.{Engine}
use pg_analytics.Duckdb.Connection.{Globals}
use pg_analytics.Api.Rows.{RowReader, query_map}
use pg_analytics.Text.Decimal.{to_string}
use pg_analytics.Duckdb.Utils.{format_csv}

pub record SniffCsvRow : Type 0 where
  pub delimiter : Option Text
  pub quote : Option Text
  pub escape : Option Text
  pub new_line_delimiter : Option Text
  pub skip_rows : Option ℤ
  pub has_header : Option Bool
  pub columns : Option Text
  pub date_format : Option Text
  pub timestamp_format : Option Text
  pub user_arguments : Option Text
  pub prompt : Option Text

-- `to_string` of an `i64`
unfoldable pub i64_to_string : ℤ → Text
unfolding to_string
i64_to_string (pos n) = to_string n
i64_to_string (negsuc n) = b'-' ∷ to_string (suc n)

-- The arguments, of which the second may be missing: `flatten` and `join`.
unfoldable pub schema_str : Text → Option ℤ → Text
unfolding format_csv join i64_to_string
schema_str files none = join (str ", ") (format_csv files ∷ [])
schema_str files (some n) = join (str ", ") (format_csv files ∷ i64_to_string n ∷ [])

module _ (e : Engine) (r : RowReader e) where
  open r use {Row, get_string, get_i32, get_i64, get_bool, get_value}

  unfoldable pub sniff_csv_row : Row → Result SniffCsvRow
  sniff_csv_row row = bind_result (get_string row 0) λ delimiter.
      bind_result (get_string row 1) λ quote. bind_result (get_string row 2) λ escape.
        bind_result (get_string row 3) λ new_line_delimiter.
          bind_result (get_i32 row 4) λ skip_rows. bind_result (get_bool row 5) λ has_header.
            bind_result (get_value row 6) λ columns. bind_result (get_string row 7) λ date_format.
              bind_result (get_string row 8) λ timestamp_format.
                bind_result (get_string row 9) λ user_arguments.
                  bind_result (get_string row 10) λ prompt. ok (record {
                    delimiter = delimiter;
                    quote = quote;
                    escape = escape;
                    new_line_delimiter = new_line_delimiter;
                    skip_rows = skip_rows;
                    has_header = has_header;
                    columns = columns;
                    date_format = date_format;
                    timestamp_format = timestamp_format;
                    user_arguments = user_arguments;
                    prompt = prompt;
                  })

  unfoldable pub sniff_csv_impl : Text → Option ℤ → Exec (Globals e) (List SniffCsvRow)
  unfolding schema_str query_map
  sniff_csv_impl files sample_size =
      query_map e r sniff_csv_row
        (concat (str "SELECT * FROM sniff_csv(" ∷ schema_str files sample_size ∷ str ")" ∷ []))

  unfoldable pub sniff_csv : Text → Option ℤ → Exec (Globals e) (List SniffCsvRow)
  unfolding sniff_csv_impl
  sniff_csv files sample_size = or_panic (sniff_csv_impl files sample_size)

-- ===== src/Schema/Cell/Documents.antt =====
-- src/schema/cell.rs: the branches of `get_cell` for bytes, texts and JSON.
use pg_analytics.Prelude.{ℕ, Option}
use pg_analytics.Text.{Text}
use pg_analytics.Result.{Result, ok, ◌>>=◌}
use pg_analytics.Schema.Cell.Types.{
  DataType, utf8, large_utf8, binary, large_binary, struct, list, string_array, large_string_array,
  binary_array, large_binary_array,
}
use pg_analytics.Schema.Cell.Libraries.{Libraries}
use pg_analytics.Schema.Cell.Values.{get_primitive_value, get_binary_value, get_byte_value}
use pg_analytics.Schema.Cell.Nested.{get_struct_value, get_list_value}
use pg_analytics.Schema.Cell.Cells.{
  Cell, to_cell, try_cell, mismatch, bytea_cell, string_cell, json_cell, jsonb_cell,
}

module _ (l : Libraries) where
  open l use {Array, bytes_of_text, json_from_str, json_to_value}

  -- The branch `BYTEAOID` of `get_cell`.
  unfoldable pub get_bytea : DataType → Array → ℕ → ℕ → Text → Result (Option (Cell l))
  get_bytea binary array index oid name =
      to_cell l bytea_cell (get_byte_value l binary_array (λ b. b) array index)
  get_bytea large_binary array index oid name =
      to_cell l bytea_cell (get_byte_value l large_binary_array (λ b. b) array index)
  get_bytea utf8 array index oid name =
      to_cell l (λ v. bytea_cell (bytes_of_text v)) (get_primitive_value l string_array array index)
  get_bytea t array index oid name = mismatch l name t oid

  -- The branch `TEXTOID | VARCHAROID | BPCHAROID | NAMEOID` of `get_cell`.
  unfoldable pub get_text : DataType → Array → ℕ → ℕ → Text → Result (Option (Cell l))
  get_text utf8 array index oid name =
      to_cell l string_cell (get_primitive_value l string_array array index)
  get_text large_utf8 array index oid name =
      to_cell l string_cell (get_primitive_value l large_string_array array index)
  get_text binary array index oid name =
      to_cell l string_cell (get_binary_value l binary_array (λ b. b) array index)
  get_text large_binary array index oid name =
      to_cell l string_cell (get_binary_value l large_binary_array (λ b. b) array index)
  get_text t array index oid name = mismatch l name t oid

  -- The branch `JSONOID` of `get_cell`.
  unfoldable pub get_json : DataType → Array → ℕ → ℕ → Text → Result (Option (Cell l))
  get_json (struct fields) array index oid name =
      to_cell l json_cell (get_struct_value l array index)
  get_json utf8 array index oid name =
      try_cell l (λ v. json_from_str v >>= λ json. ok (json_cell json))
        (get_primitive_value l string_array array index)
  get_json large_utf8 array index oid name =
      try_cell l (λ v. json_from_str v >>= λ json. ok (json_cell json))
        (get_primitive_value l large_string_array array index)
  get_json (list of) array index oid name =
      try_cell l (λ v. json_to_value v >>= λ json. ok (json_cell json))
        (get_list_value l array index)
  get_json t array index oid name = mismatch l name t oid

  -- The branch `JSONBOID` of `get_cell`.
  unfoldable pub get_jsonb : DataType → Array → ℕ → ℕ → Text → Result (Option (Cell l))
  get_jsonb (struct fields) array index oid name =
      to_cell l jsonb_cell (get_struct_value l array index)
  get_jsonb utf8 array index oid name =
      try_cell l (λ v. json_from_str v >>= λ json. ok (jsonb_cell json))
        (get_primitive_value l string_array array index)
  get_jsonb large_utf8 array index oid name =
      try_cell l (λ v. json_from_str v >>= λ json. ok (jsonb_cell json))
        (get_primitive_value l large_string_array array index)
  get_jsonb (list of) array index oid name = to_cell l jsonb_cell (get_list_value l array index)
  get_jsonb t array index oid name = mismatch l name t oid

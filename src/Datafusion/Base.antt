-- ===== src/Datafusion/Base.antt =====
-- src/datafusion/src/fdw/base.rs: the scan that the wrappers of the earlier implementation share. Their
-- structs have the same fields, and the methods of the trait that they fill in are the same.
use pg_analytics.Prelude.{
  ℕ, suc, ◌+◌, Bool, true, false, Option, none, some, List, [], ◌∷◌, ◌++◌, leb, if◌then◌else◌, any,
}
use pg_analytics.Text.{Text, str, same}
use pg_analytics.Result.{Result, ok, err, error, ok_or}
use pg_analytics.Exec.{Exec, pure, lift, gets, modify, ◌>>=◌, ◌>>◌}
use pg_analytics.Options.{OptionMap, get}
use pg_analytics.Fdw.Base.{Column, Limit}

-- DataFusion, Arrow and the session of the extension, as the scan uses them.
pub record Frames : Type 1 where
  pub DataFrame : Type 0
  pub Batch : Type 0
  pub Array : Type 0
  -- `Session::catalog`, `Session::session_context` and `Session::catalog_name`
  pub catalog : Result (Unit {0})
  pub session_context : Result (Unit {0})
  pub catalog_name : Result Text
  -- `context.table` for a catalog, a schema and a name
  pub table : Text → Text → Text → Result DataFrame
  pub limit : ℕ → Option ℕ → DataFrame → Result DataFrame
  -- The batches that a stream gives until its end.
  pub execute_stream : DataFrame → Result (List (Result Batch))
  pub num_rows : Batch → ℕ
  pub column : Batch → ℕ → Result Array

-- A relation of PostgreSQL: its schema and its name.
pub record PgRelation : Type 0 where
  pub namespace : Text
  pub name : Text

-- The errors of the scan.
abbrev pub batch_not_found : Text
batch_not_found = str "Unexpected error: Expected RecordBatch but found None"

abbrev pub frame_not_found : Text
frame_not_found = str "Unexpected error: DataFrame not found"

abbrev pub stream_not_found : Text
stream_not_found = str "Unexpected error: Expected SendableRecordBatchStream but found None"

abbrev pub table_oid_not_found : Text
table_oid_not_found = str "Unexpected error: Table OID not found"

module _ (f : Frames) (Cell : Type 0) where
  open f use {
    DataFrame, Batch, Array, catalog, session_context, catalog_name, table, num_rows, column,
  }

  -- The fields of `S3Fdw` and of the other wrappers.
  pub record LakeFdw : Type 0 where
    pub dataframe : Option DataFrame
    pub stream : Option (List (Result Batch))
    pub current_batch : Option Batch
    pub current_batch_index : ℕ
    pub target_columns : List Column

  -- What a scan works on: the wrapper, the schemas of the catalog, and the row that it fills.
  pub record LakeScan : Type 0 where
    pub fdw : LakeFdw
    pub schemas : List Text
    pub row : List (Text × Option Cell)

  abbrev S : Type 0 → Type 0
  S = Exec LakeScan

  abbrev on_fdw : (LakeFdw → LakeFdw) → S Unit
  on_fdw g = modify (λ s. record s { fdw = g s.fdw })

  -- `create_stream`, for the current stream
  unfoldable pub create_stream : Option (List (Result Batch)) → S Unit
  create_stream (some stream) = pure tt
  create_stream none = do
    frame ← gets (λ s. s.fdw.dataframe)
    frame ← lift (ok_or frame (error frame_not_found))
    stream ← lift (f.execute_stream frame)
    on_fdw (λ x. record x { stream = some stream })

  -- The `match` on `next()` of the stream; a batch that failed is used up.
  abbrev next_of : List (Result Batch) → S (Option Batch)
  next_of [] = pure none
  next_of (ok batch ∷ rest) = on_fdw (λ x. record x { stream = some rest }) >> pure (some batch)
  next_of (err e ∷ rest) = on_fdw (λ x. record x { stream = some rest }) >> lift (err e)

  -- `get_next_batch`
  unfoldable pub next_batch : S (Option Batch)
  next_batch = do
    stream ← gets (λ s. s.fdw.stream)
    batches ← lift (ok_or stream (error stream_not_found))
    next_of batches

  -- `clear_stream`
  unfoldable pub clear_stream : S Unit
  clear_stream = on_fdw (λ x. record x { stream = none })

  -- A schema that the catalog has not is registered.
  unfoldable pub register_schema : Text → S Unit
  register_schema schema_name = modify λ s. record s {
    schemas =
        if any (λ x. same x schema_name) s.schemas
        then s.schemas
        else s.schemas ++ schema_name ∷ [];
  }

  abbrev limited : Option Limit → DataFrame → Result DataFrame
  limited none frame = ok frame
  limited (some limit) frame = f.limit limit.offset (some limit.count) frame

  -- `begin_scan_impl`, for the key of the table's oid, the parser of a `u32`, and the relations.
  unfoldable pub begin_scan_impl :
      Text → (Text → Result ℕ) → (ℕ → PgRelation) → List Column → Option Limit → OptionMap → S Unit
  unfolding register_schema get
  begin_scan_impl opts_table_key parse open_relation columns limit options = do
    on_fdw (λ x. record x { target_columns = columns })
    oid_text ← lift (ok_or (get options opts_table_key) (error table_oid_not_found))
    oid ← lift (parse oid_text)
    lift catalog
    register_schema (open_relation oid).namespace
    lift session_context
    catalog_name' ← lift catalog_name
    frame ← lift (table catalog_name' (open_relation oid).namespace (open_relation oid).name)
    frame ← lift (limited limit frame)
    on_fdw (λ x. record x { dataframe = some frame })

  abbrev pub lake_used_up : Option Batch → ℕ → Bool
  lake_used_up none index = true
  lake_used_up (some batch) index = leb (num_rows batch) index

  abbrev keep : Option Batch → S Bool
  keep none = pure false
  keep (some batch) = on_fdw (λ x. record x { current_batch = some batch }) >> pure true

  unfoldable pub next_if : Bool → S Bool
  unfolding next_batch
  next_if false = pure true
  next_if true = do on_fdw (λ x. record x { current_batch_index = 0 }); next ← next_batch; keep next

  -- `get_cell` of src/datafusion/src/schema/cell.rs, for the array, the row and the target column.
  module _ (get_cell : Array → ℕ → Column → Result (Option Cell)) where
    -- The loop over the target columns, from a column index on.
    unfoldable pub push_columns : Batch → ℕ → ℕ → List Column → S Unit
    push_columns batch index column_index [] = pure tt
    push_columns batch index column_index (target ∷ targets) =
        let rest = push_columns batch index (suc column_index) targets in
        do
          array ← lift (column batch column_index)
          cell ← lift (get_cell array index target)
          modify (λ s. record s { row = s.row ++ (target.name, cell) ∷ [] })
          rest

    abbrev row_of_batch : S (Option Unit)
    row_of_batch = do
      current ← gets (λ s. s.fdw.current_batch)
      batch ← lift (ok_or current (error batch_not_found))
      index ← gets (λ s. s.fdw.current_batch_index)
      targets ← gets (λ s. s.fdw.target_columns)
      push_columns batch index 0 targets
      on_fdw (λ x. record x { current_batch_index = index + 1 })
      pure (some tt)

    unfoldable pub iter_scan_impl : S (Option Unit)
    unfolding create_stream next_if push_columns
    iter_scan_impl = do
      stream ← gets (λ s. s.fdw.stream)
      create_stream stream
      done ← gets (λ s. lake_used_up s.fdw.current_batch s.fdw.current_batch_index)
      more ← next_if done
      if more then row_of_batch else pure none

  unfoldable pub end_scan_impl : S Unit
  unfolding clear_stream
  end_scan_impl = clear_stream

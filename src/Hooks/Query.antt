-- ===== src/Hooks/Query.antt =====
-- src/hooks/query.rs
pub mod Slots
pub mod Statement
use pg_analytics.Prelude.{
  ℕ, zero, suc, ◌+◌, ◌-◌, Bool, true, false, not, ◌&&◌, ◌||◌, Option, none, some, List, [], ◌∷◌,
  ◌++◌, length, leb, all, retain, take, drop, map, flatten, if◌then◌else◌, ◌==◌,
}
use pg_analytics.Text.{Text, str, same}
use pg_analytics.Result.{Result, ok, err, error, panic, ok_or, ◌>>=◌ as bind_result}
use pg_analytics.Exec.{Exec, pure, fail, lift, gets, modify, ◌>>=◌, ◌>>◌}
use pg_analytics.Duckdb.Engine.{Engine}
use pg_analytics.Duckdb.Connection.{Globals, get_available_schemas, set_search_path}
use pg_analytics.Fdw.Handler.{from_name, is_other}
use pg_analytics.Fdw.Base.{Column, GetCell}
use pg_analytics.Fdw.Validate.{contains}
use pg_analytics.Hooks.World.{
  Relation, Postgres, CmdType, Slot, Event, startup, shutdown, receive, World, on_globals, emit,
}

-- `full_query[start..stop]`, with the panic of a range that does not fit. Offsets count bytes, and
-- texts of queries are read as their bytes; the offsets of a statement lie between characters.
unfoldable pub slice : ℕ → ℕ → Text → Result Text
slice start stop s =
    if leb start stop && leb stop (length s)
    then ok (take (stop - start) (drop start s))
    else err (panic (str "byte index out of range"))

-- `stmt_location`, none for -1, and `stmt_len`, 0 for the rest of the text.
unfoldable pub get_current_query : Option ℕ → ℕ → Result Text → Result Text
unfolding slice
get_current_query none query_len query_string = query_string
get_current_query (some query_start) query_len query_string = bind_result query_string λ full_query.
    if query_len == 0
    then slice query_start (length full_query) full_query
    else slice query_start (query_start + query_len) full_query

-- An entry of a range table: whether its kind is RTE_RELATION, and the relation's oid.
pub record RangeTblEntry : Type 0 where
  pub is_relation : Bool
  pub relid : ℕ

abbrev entry_relation : Postgres → RangeTblEntry → Option Relation
entry_relation pg rte = if rte.is_relation then some (pg.relation rte.relid) else none

-- The relations of a range table, none if the table is a null pointer.
unfoldable pub get_query_relations : Postgres → Option (List RangeTblEntry) → List Relation
get_query_relations pg none = []
get_query_relations pg (some rtable) = flatten (map (entry_relation pg) rtable)

abbrev pub is_duckdb_relation : Relation → Bool
is_duckdb_relation r =
    if r.is_foreign_table then not (is_other (from_name r.handler_name)) else false

abbrev is_nil {ℓ} : {A : Type ℓ} → List A → Bool
is_nil [] = true
is_nil (x ∷ xs) = false

unfoldable pub is_duckdb_query : List Relation → Bool
is_duckdb_query relations = not (is_nil relations) && all is_duckdb_relation relations

module _ (e : Engine) where
  -- The names of the schemas that the cache knows.
  unfoldable pub get_postgres_search_path : Postgres → List Text
  get_postgres_search_path pg = flatten pg.search_path

  unfoldable pub set_search_path_by_pg : Postgres → Exec (Globals e) Unit
  unfolding get_postgres_search_path contains
  set_search_path_by_pg pg = do
    duckdb_schemas ← get_available_schemas e
    set_search_path e
        (retain (λ schema. contains duckdb_schemas schema) (get_postgres_search_path pg))

-- Which callbacks a destination has; the code asks for each before it uses it.
pub record Dest : Type 0 where
  pub has_startup : Bool
  pub has_receive : Bool
  pub has_shutdown : Bool

module _ (e : Engine) (Cell : Type 0) (get_cell : GetCell e Cell) where
  open e use {Batch, num_rows, column}

  -- The loop over the attributes of a row, from a column on: the slot's cells.
  unfoldable pub fill_slot : Batch → ℕ → ℕ → List Column → Result (Slot e Cell)
  fill_slot batch row_index col_index [] = ok []
  fill_slot batch row_index col_index (attribute ∷ attributes) =
      bind_result (column batch col_index) λ array.
        bind_result (get_cell array row_index attribute.type_oid attribute.name) λ cell.
          bind_result (fill_slot batch row_index (suc col_index) attributes)
            λ cells. ok (cell ∷ cells)

  -- `for row_index in row_index..row_index + count`
  unfoldable pub write_rows : List Column → Batch → ℕ → ℕ → Exec (World e Cell) Unit
  write_rows attributes batch row_index zero = pure tt
  write_rows attributes batch row_index (suc count) =
      let rest = write_rows attributes batch (row_index + 1) count in
      do
        slot ← lift (fill_slot batch row_index 0 attributes)
        emit e Cell (receive slot)
        modify (λ w. record w { es_processed = w.es_processed + 1 })
        rest

  -- `for batch in batches`
  unfoldable pub write_batches : List Column → List Batch → Exec (World e Cell) Unit
  unfolding write_rows
  write_batches attributes [] = pure tt
  write_batches attributes (batch ∷ batches) =
      let rest = write_batches attributes batches in
      do write_rows attributes batch 0 (num_rows batch); rest

  -- `ok_or_else(|| anyhow!(message))` on a callback
  abbrev callback : Bool → Text → Exec (World e Cell) Unit
  callback true message = pure tt
  callback false message = fail (error message)

  unfoldable pub write_batches_to_slots : Dest → List Column → List Batch → Exec (World e Cell) Unit
  unfolding write_batches fill_slot
  write_batches_to_slots dest attributes batches = do
    modify (λ w. record w { es_processed = 0 })
    callback dest.has_startup (str "rStartup not found")
    emit e Cell startup
    callback dest.has_receive (str "receiveSlot not found")
    write_batches attributes batches
    callback dest.has_shutdown (str "rShutdown not found")
    emit e Cell shutdown

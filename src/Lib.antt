-- ===== src/Lib.antt =====
-- A model of pg_analytics, the PostgreSQL extension that runs queries on foreign tables over data
-- lakes by an embedded DuckDB, and what is proved of it. The code is the Rust crate under src/.
--
-- A foreign table belongs to one of six wrappers (csv, json, parquet, delta, iceberg, spatial). Its
-- options are checked by the wrapper's validator and become a view in DuckDB; a user mapping becomes
-- a secret. The event trigger creates the view of a new table and gives the table its columns. A
-- query reaches DuckDB in one of two ways: whole, by the hooks on the executor and on the utility
-- statements, or table by table, by the scan of the wrapper. Both share the session of DuckDB: the
-- connection, the last statement, and its stream of Arrow batches.
--
-- Files, and the code that they model:
--   Duckdb/Csv, Json, Parquet, Delta, Iceberg, Spatial, Secret: src/duckdb/{csv,json,parquet,delta,
--     iceberg,spatial,secret}.rs, the enum of options with EnumIter, AsRefStr and is_required, and
--     create_view or create_secret. Their children Arguments, which Delta has not, describe the
--     statement by the enum.
--   Duckdb/Utils: src/duckdb/utils.rs, format_csv.
--   Duckdb/Engine, Duckdb/Connection: src/duckdb/connection.rs. The record Globals is the session:
--     GLOBAL_CONNECTION, GLOBAL_STATEMENT and GLOBAL_ARROW, with the batches that are still to come.
--   Fdw/Handler: src/fdw/handler.rs.  Fdw/Trigger: src/fdw/trigger.rs.
--   Fdw/Validate, Fdw/Register, Fdw/Base, Fdw/Base/Begin: src/fdw/base.rs, validate_mapping_option,
--     register_duckdb_view, and the scan (begin_scan, iter_scan, end_scan, explain). The record Fdw has
--     the fields of the six structs of src/fdw/{csv,json,parquet,delta,iceberg,spatial}.rs, which are
--     the same; the validators of these files are in Fdw/Wrappers.
--   Hooks/World: what the hooks act on, with their effects on PostgreSQL as a list of events.
--   Hooks/Query, Hooks/Executor: src/hooks/query.rs, src/hooks/executor.rs.
--   Hooks/Utility, with Explain, Prepare and View: src/hooks/utility.rs and src/hooks/utility/*.rs.
--   Schema/Datetime: src/schema/datetime.rs, up to the constructors of pgrx, which get the seconds as
--     the expression on f64 that the code computes.
--   Schema/Cell: src/schema/cell.rs. Types has the data types and array types of Arrow, Values the
--     helper traits (get_primitive_value and the others), Nested structs and lists, Numbers, Floats,
--     Documents and Temporal the branches of get_cell, and Get the match on the oid. Listed is the
--     table of the pairs of types that the branches list. Schema/Integers: the casts of integers.
--   Hooks/Entry: src/hooks/mod.rs.
--   Api/Csv, Api/Duckdb, Api/Parquet: src/api/{csv,duckdb,parquet}.rs, with the rows of DuckDB in
--     Api/Rows.
--   Datafusion: src/datafusion/src/fdw, the wrappers of an earlier implementation on DataFusion and
--     object stores. Options, S3, Gcs, Azblob, Azdls and Local have the options, the validators and the
--     builders as the calls that they get; Register the object stores of the session; Base the scan.
--   Datafusion/Cell: src/datafusion/src/schema/cell.rs, the earlier get_cell, in the files of
--     Schema/Cell; its names start with lake_.
--   Datafusion/Attribute: src/datafusion/src/schema/attribute.rs, whether a column fits a field.
--   Datafusion/Schema: src/datafusion/src/datafusion/schema.rs, the tables of a schema with the stores
--     of the session; Datafusion/Provider: provider.rs and format.rs beside it.
--   Options: HashMap<String, String>, and what the enums of options have in common.
--   Prelude, Text, Result, Exec: lists and numbers; strings as their code points with the methods of
--     str that the code calls; values with failures, where a panic passes every match; and state
--     passing, where what was written before a failure stays written.
--   Tests: concrete inputs, a DuckDB that records what it was told, and unit tests of the sources.
--
-- Parameters, for code that is not in the repository: DuckDB and Arrow (Engine), the check for a
-- required option of supabase-wrappers (OptionCheck, which finds name=value), its conditions and sort
-- keys (Pushdown), PostgreSQL's catalog (Postgres, ForeignTable, Creation), sqlparser, the time that
-- EXPLAIN ANALYZE measures, quote_identifier and Spi::run, the rows of DuckDB with their typed getters
-- (RowReader), and opendal, DataFusion and the session of the earlier implementation (Stores, Frames).
-- Schema/Cell/Libraries has what src/schema/cell.rs takes of arrow, chrono, pgrx, uuid and serde_json,
-- and the floating point numbers; its ArrowLaws say that the data type of an array decides which
-- downcasts succeed, and that a row of a list array has the type of its values. LakeLibraries adds the
-- error of DataFusion's downcast_value and String::from_utf8, PgTypes the oids of pg_sys, Listings the
-- listing tables of DataFusion, and Database the relations and the equality of URLs. Reading a cell is
-- a parameter of the scan (GetCell).
--
-- Bounds: the client that calls iter_scan until None has fuel, and the theorems give it more than the
-- number of rows. The digits of a number n have fuel above n, which n / 10 < n makes enough. The limit
-- of a scan wraps at 2 ^ 63 as i64 does in a release build, and the oid of a table is below 2 ^ 32.
-- JSON of nested lists has fuel above the depth of the lists, so that its end is not reached. The
-- products and casts of integers are those of a release build, which wrap. The other recursions are on
-- lists.
--
-- Not modelled: src/debug_guc.rs and the branches of debug builds, src/lib.rs (it registers the hooks),
-- the thread in src/duckdb/connection.rs that interrupts queries on a signal, and of src/datafusion the
-- hooks, the catalogs and the session of the earlier implementation, its command line tool, its
-- telemetry and its fixtures.
pub mod Prelude
pub mod Text
pub mod Result
pub mod Exec
pub mod Options
pub mod Duckdb
pub mod Fdw
pub mod Hooks
pub mod Schema
pub mod Api
pub mod Datafusion
pub mod Tests

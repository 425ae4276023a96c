-- ===== src/Api.antt =====
-- src/api: the SQL functions of the extension. A failure is a panic there, so that a function gives
-- rows, or panics with the message of the failure.
pub mod Rows
pub mod Csv
pub mod Duckdb
pub mod Parquet
pub mod Functions

-- ===== src/Duckdb.antt =====
-- The DuckDB side of the extension (src/duckdb): how options become SQL.
pub mod Utils
pub mod Csv
pub mod Parquet
pub mod Json
pub mod Delta
pub mod Iceberg
pub mod Spatial
pub mod Secret
pub mod Engine
pub mod Connection

-- ===== src/Schema/Cell.antt =====
-- src/schema/cell.rs: reading a value of an Arrow array as a cell of Postgres.
pub mod Types
pub mod Libraries
pub mod Values
pub mod Cells
pub mod Nested
pub mod Numbers
pub mod Floats
pub mod Documents
pub mod Temporal
pub mod Get
pub mod Holds
pub mod Integers
pub mod Listed
pub mod Lists
pub mod Intervals
pub mod Failures

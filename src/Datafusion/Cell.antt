-- ===== src/Datafusion/Cell.antt =====
-- src/datafusion/src/schema/cell.rs: the earlier reading of cells.
pub mod Values
pub mod Numbers
pub mod Floats
pub mod Temporal
pub mod Get
pub mod Refined

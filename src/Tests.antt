-- ===== src/Tests.antt =====
-- Concrete inputs: the theorems applied to them, and runs of the model, some of them the unit tests
-- of the sources.
pub mod Toy
mod Scan
pub mod Executor
mod Utility
mod Validators
mod Views
pub mod Register
mod Begin
mod Columns
mod Dates
pub mod Lake
mod Tables
mod Types
pub mod Arrays
mod Cells
mod Functions
mod Stores
mod Sources

-- ===== src/Schema.antt =====
-- src/schema: conversions of values.
pub mod Datetime
pub mod Integers
pub mod Cell

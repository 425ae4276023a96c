-- ===== src/Fdw.antt =====
-- The foreign data wrappers (src/fdw).
pub mod Handler
pub mod Validate
pub mod Register
pub mod Base
pub mod Trigger
pub mod Wrappers

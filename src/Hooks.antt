-- ===== src/Hooks.antt =====
-- The hooks that PostgreSQL calls (src/hooks): which statements DuckDB runs, and what a client gets.
pub mod World
pub mod Query
pub mod Executor
pub mod Utility
pub mod Entry

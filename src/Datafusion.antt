-- ===== src/Datafusion.antt =====
-- src/datafusion/src/fdw: the wrappers of the earlier implementation, which read files in object stores
-- by DataFusion.
pub mod Options
pub mod Store
pub mod S3
pub mod Gcs
pub mod Azblob
pub mod Azdls
pub mod Local
pub mod Attribute
pub mod Base
pub mod Cell
pub mod Provider
pub mod Register
pub mod Schema

-- ===== src/Store.antt =====
-- internal/store: the Postgres client.
pub mod Like
pub mod Glob
pub mod Postgres
pub mod Session
pub mod Write
pub mod Ends
pub mod Valid
pub mod Graph
pub mod Paging
pub mod Query
pub mod Open
pub mod Samples

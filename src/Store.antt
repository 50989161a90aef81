-- ===== src/Store.antt =====
-- internal/store: the registry. Each table is a list of rows; the SQL statements of the source are
-- the operations on it. What SQLite itself may fail with (a full disk, a lost connection) is not
-- modelled.
pub mod Site
pub mod Sites
pub mod ApiKeys
pub mod OAuth
mod Tests

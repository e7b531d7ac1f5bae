-- ===== src/Database.antt =====
-- internal/database: the tables, the SQL statements of objects.go and the methods of DB.
pub mod Connect
pub mod Schema
pub mod Exec
pub mod Statements
pub mod Invariant
pub mod Link
pub mod Reads
pub mod Unchanged
pub mod Sweeps
pub mod Catalog
pub mod Objects

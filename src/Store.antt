-- ===== src/Store.antt =====
-- The database of the server: the rows of internal/domain/models.go and of sql/sqlite/, and the
-- statements of internal/db/sqlite.go.
pub mod Rows
pub mod Driver
pub mod Reads
pub mod Writes
pub mod Consistency
pub mod Ownership
pub mod Outcomes
pub mod ActiveKeys
pub mod Preservation
pub mod Renaming
pub mod Postgres

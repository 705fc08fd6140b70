-- ===== src/Runtime.antt =====
-- What the program's operations run in: exceptions as values, state passing, and the retry loop
-- for SQLite's busy errors.
pub mod Exn
pub mod Exec
pub mod Respects
pub mod Retry
pub mod Ensures

-- ===== src/Library.antt =====
-- src/library.c: what the music library keeps in its database. SQL is read as SQLite documents it,
-- for the statements that the file contains; rows are read in the order of their rowids, and a
-- loop over a SELECT reads its rows before the callbacks change them. SQLite can refuse to prepare
-- a statement and a step of one can fail, whenever it wants.
pub mod Rows
pub mod Statements
pub mod Selects
pub mod Files
pub mod Directories
pub mod Images
pub mod Words
pub mod Counts
pub mod Named
pub mod Added
pub mod Calls
pub mod Lookup
pub mod Deleting
pub mod Others
pub mod Times
pub mod Again
pub mod Common
pub mod Kept
mod Tests
pub mod Gone

-- ===== src/Sql.antt =====
-- pgdb/filter.c and db_escape of pgdb/dudldb.c: the SQL that stands for a filter.
pub mod Escape
pub mod Asking
pub mod Reading
pub mod Filter
pub mod Texts
pub mod Pieces
pub mod Table
pub mod Bounds
pub mod Tests

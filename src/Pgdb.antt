-- ===== src/Pgdb.antt =====
-- pgdb: the functions of the database, which ask PostgreSQL by libpq.
pub mod Server
pub mod Connection
pub mod Rows
pub mod Shapes
pub mod Users
pub mod Tags
pub mod Albums
pub mod Tracks
pub mod Queues
pub mod Random
pub mod Filters
pub mod Statement
pub mod Runs
pub mod Open
pub mod Connected
pub mod Kept
pub mod Startup
pub mod Database
pub mod Safety
pub mod Sent
mod Tests

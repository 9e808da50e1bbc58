-- ===== src/Commands.antt =====
-- proto_cmd.c and proto_bcast.c: the commands of the protocol, and what all clients are told.
pub mod Session
pub mod Broadcast
pub mod Handlers
pub mod Users
pub mod Playing
pub mod Tracks
pub mod Tags
pub mod Albums
pub mod Requests
pub mod Answers
mod Special
pub mod Served
pub mod Login
pub mod Preserving
pub mod Sessions
pub mod Help
pub mod Tests

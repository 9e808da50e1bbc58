-- ===== src/Client.antt =====
-- client.c and client.h: the connections of the server.
pub mod Line
pub mod FirstLine
pub mod Bounds
pub mod Search
pub mod Lines
pub mod Answers
pub mod Connections
pub mod Loop
pub mod Broadcast
pub mod Closing
pub mod Tests
mod BoundsTests
mod ListTests

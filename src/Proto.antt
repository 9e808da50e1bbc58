-- ===== src/Proto.antt =====
-- proto.c, proto_val.c and proto_helper.c: the commands of the protocol and the lines that answer them.
pub mod Dispatch
pub mod Rights
pub mod Reply
pub mod Answers
pub mod Lines
mod Tests

-- ===== src/Format.antt =====
-- proto_fmt.c: the records that are sent to clients.
pub mod Table
pub mod Records
pub mod Digits
pub mod Fits
pub mod Columns
pub mod Lines
pub mod Rows
pub mod Sending
pub mod Dump
pub mod Answers
pub mod Tests

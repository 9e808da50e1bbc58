-- ===== src/ParseExpr.antt =====
-- commondb/parseexpr.c and .h: the parser and the printer of the filter language.
pub mod Syntax
pub mod Tables
pub mod Lexer
pub mod Parser
pub mod Text
pub mod Print
pub mod Messages
pub mod RoundTrip
pub mod Progress
pub mod Termination
pub mod Sound
mod Examples

-- ===== src/ParseExpr/RoundTrip.antt =====
-- What the parser of commondb/parseexpr.c makes of the text that the printer writes.
pub mod Values
pub mod Tests
pub mod Exprs

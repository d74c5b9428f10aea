-- ===== src/Lexer/RoundTrip.antt =====
-- What token.rs prints, read by lex.rs.
pub mod Fixed
pub mod Digits
pub mod Bytes
pub mod Strings
pub mod Escapes
pub mod Numerals
pub mod Integers

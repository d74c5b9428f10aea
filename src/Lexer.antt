-- ===== src/Lexer.antt =====
-- The lexer, src/translation/src/token and src/translation/src/token_lexer.
pub mod Token
pub mod Words
pub mod Cursor
pub mod Escape
pub mod Number
pub mod Scan
pub mod Stream
pub mod Display
pub mod Reads
pub mod Positions
pub mod Invariant
pub mod Calls
pub mod RoundTrip
mod Tests

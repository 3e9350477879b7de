-- ===== src/Sql.antt =====
-- dbwarden/sql.py and dbwarden/engine/file_parser.py: the statements of a migration file.
pub mod Split
pub mod Tokens
pub mod TokenLaws
pub mod SplitLaws
pub mod Files
pub mod Blocks
pub mod FileLaws
pub mod RoundTrip
mod Tests

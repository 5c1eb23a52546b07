-- ===== src/Parser.antt =====
-- The parser: parser.c and parser_*.c, which read a configuration file.
pub mod State
pub mod Lexer
pub mod Names
pub mod Labels
pub mod Assign
pub mod Item
pub mod Enum
pub mod Bitfield

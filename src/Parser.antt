-- ===== src/Parser.antt =====
-- rinja_parser: the parts of the template parser that are plain functions on text and state.
pub mod Whitespace
pub mod Lit
pub mod Expr
pub mod Target
pub mod Node
pub mod Syntax
pub mod Level
pub mod Keywords

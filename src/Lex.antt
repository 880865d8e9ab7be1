-- ===== src/Lex.antt =====
-- The lexer, src/lex.cpp and src/dict.cpp.
pub mod CharType
pub mod Keywords
pub mod KeywordsLaws
pub mod Scanner
pub mod Escape
pub mod Skip
pub mod Directive
pub mod Scan
pub mod Triple
pub mod Assert
pub mod Actions
pub mod EscapeTriple
pub mod BodyTriple
pub mod TokenTriple
pub mod OperatorTriple
pub mod DirectiveTriple
pub mod ScanTriple
pub mod Gap
pub mod Lossless
pub mod Literal
pub mod LiteralLaws
pub mod PutBack
mod Tests

-- ===== src/Ty.antt =====
-- The types of C, src/type.h and src/type.cpp, and the declaration specifiers that name them,
-- src/parse_decl.cpp.
pub mod Spec
pub mod Arithmetic
pub mod Conversion
pub mod CType
pub mod Equal
pub mod EqualLaws
pub mod DeclSpec
pub mod DeclTable
pub mod DeclRow
pub mod DeclPhase
pub mod DeclLaws
pub mod DeclOrder
mod Tests

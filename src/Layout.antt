-- ===== src/Layout.antt =====
-- The members of structs and unions: `StructType` of src/type.cpp, and `Parser::ParseStructDeclList`
-- of src/parse_decl.cpp, which fills it.
pub mod Fields
pub mod Operations
pub mod Declare
pub mod Placed
pub mod PlacedSteps
pub mod PlacedMembers
pub mod PlacedBits
pub mod PlacedList
pub mod PlacedEnd
pub mod PlacedPlain
mod Tests

-- ===== src/Fluid.antt =====
-- Expressions and patterns of the language: libshared/FluidExpression.ml and libshared/FluidPattern.ml.
pub mod Pattern
pub mod Expr
pub mod Schemes
pub mod Induct
pub mod Walk
pub mod Find
pub mod Update
pub mod Parent
pub mod Empty
pub mod Collect
pub mod Variables
pub mod Clone
pub mod Traverse
mod Tests

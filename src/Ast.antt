-- ===== src/Ast.antt =====
-- `Dark.ast` of client/src/appsupport.js: ids and places of the elements of a toplevel.
pub mod ExtractId
pub mod Positions
mod Tests

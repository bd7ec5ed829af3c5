-- ===== src/Ops.antt =====
-- The list of operations that a canvas is built from: backend/libserialize/op.ml and
-- backend/libbackend/undo.ml.
pub mod Op
pub mod Ast
pub mod Group
pub mod Undo
pub mod Order
mod Tests

-- ===== src/Canvas.antt =====
-- Canvases: backend/libbackend/canvas.ml, with the databases of backend/libbackend/user_db.ml.
pub mod Db
pub mod State
pub mod Apply
pub mod Deleted
mod Tests

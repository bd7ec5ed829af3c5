-- ===== src/Http.antt =====
-- backend/libexecution/http.ml and handler.ml: which handlers a request's path is for, and what the
-- variables of their routes stand for.
pub mod Paths
pub mod Bind
pub mod Specificity
pub mod Handlers
pub mod Filter
pub mod Pattern
pub mod Sanitize
pub mod Request
pub mod Serve
mod Tests

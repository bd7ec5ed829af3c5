-- ===== src/Startup.antt =====
-- The start of the page in client/src/appsupport.js, the recording of sessions, and the wait for an
-- analysis in integration-tests/tests.js.
pub mod Canvas
pub mod Workers
pub mod Consent
pub mod Poll
pub mod Push
mod Tests

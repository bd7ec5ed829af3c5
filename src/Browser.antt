-- ===== src/Browser.antt =====
-- What client/src/appsupport.js and client/src/unsupportedBrowser.js ask of the browser: whether it is
-- supported, keys, platforms, and whether the page is visible.
pub mod Support
pub mod Page
pub mod Overlay
pub mod Keys
pub mod Focus
pub mod Errors
pub mod Wheel
mod Tests

-- ===== src/Base64.antt =====
-- backend/libtarget.js: base64url for the analysis that runs in the browser, libtarget.js with its
-- bitwise loops and the guard in libtarget.ml.
pub mod Words
pub mod Alphabet
pub mod Rfc
pub mod Encode
pub mod Decode
pub mod RoundTrip
pub mod Canonical
pub mod Unsafe
pub mod Guard
pub mod Digest
mod Tests

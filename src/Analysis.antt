-- ===== src/Analysis.antt =====
-- The objects of client/src/appsupport.js that talk to web workers: two analyses, the choice between
-- them, and the fetcher of traces.
pub mod Wrapper
pub mod Slot
pub mod Fsharp
pub mod Ocaml
pub mod Fetcher
pub mod Dispatch
mod Tests

-- ===== src/Blazor.antt =====
-- fsharp-backend/src/Wasm/static/BlazorWorker.js inside its worker: loading .NET.
pub mod AsyncLoad
pub mod Boot
pub mod Scripts
pub mod Page
mod Tests

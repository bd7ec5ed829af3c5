-- ===== src/Blazor/AsyncLoad.antt =====
-- `asyncLoad` of fsharp-backend/src/Wasm/static/BlazorWorker.js: how a request settles its promise.
use dark.Common.{ℕ, Bool, false, ◌&&◌, ◌||◌, ◌==◌, if◌then◌else◌}

-- What the browser calls on an XMLHttpRequest: `onload` with its status and whether there is a
-- response, or `onerror`.
pub data Outcome : Type 0 where
  onload : ℕ → Bool → Outcome
  onerror : Outcome

-- `reject` is given the request itself in `onload`, and an event in `onerror`.
pub data Settled : Type 0 where
  resolved : Settled
  rejected_request : ℕ → Settled
  rejected_event : Settled

unfoldable pub settle : Outcome → Settled
settle (onload status response) =
    if status == 200 || (status == 0 && response) then resolved else rejected_request status
settle onerror = rejected_event

-- `isPdb404`: a file of debug symbols that the server does not have. `ends_pdb` is
-- `url.match(/\.pdb$/)`.
unfoldable pub is_pdb_404 : Bool → Settled → Bool
is_pdb_404 ends_pdb resolved = false
is_pdb_404 ends_pdb (rejected_request status) = status == 404 && ends_pdb
is_pdb_404 ends_pdb rejected_event = false

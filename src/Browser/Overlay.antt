-- ===== src/Browser/Overlay.antt =====
-- The overlay over an unsupported browser: client/src/unsupportedBrowser.js puts it up, and the
-- observer in client/src/appsupport.js reloads the page when a node of that name is removed.
use dark.Common.{
  ℕ, ◌+◌, ◌≡◌, refl, inl, inr, Bool, true, false, ◌||◌, List, [], ◌∷◌, ◌++◌, Chars, codes, arith,
  if◌then◌else◌, length, Bool-cases, any, same_text,
}
use dark.Browser.Support.{Navigator}
use dark.Browser.Page.{unsupported_browser}

-- A MutationRecord: the ids of the removed nodes.
abbrev pub Record : Type 0
Record = List Chars

abbrev pub overlay_id : Chars
overlay_id = codes "unsupportedBrowser"

-- A node of the body: its own id, empty if it has none, and the ids of the nodes in it.
pub record Div : Type 0 where
  id : Chars
  inner : List Chars

-- The handler of `DOMContentLoaded` in unsupportedBrowser.js: what is appended to the body. The node
-- that is appended has no id, the one in it has.
unfoldable pub on_loaded : Navigator → List Div → List Div
on_loaded n body =
    if unsupported_browser n then body ++ record { id = []; inner = overlay_id ∷ [] } ∷ [] else body

-- `record.removedNodes.forEach`
unfoldable pub scan_nodes : Record → Bool → Bool
scan_nodes [] reload = reload
scan_nodes (id ∷ nodes) reload = scan_nodes nodes (if same_text id overlay_id then true else reload)

-- `records.forEach`; the second argument is the flag `reload`, and the result is how often
-- `window.location.reload` is called.
unfoldable pub observe_from : List Record → Bool → ℕ
unfolding scan_nodes
observe_from [] reload = 0
observe_from (r ∷ rs) reload =
    let reload' = scan_nodes r reload in (if reload' then 1 else 0) + observe_from rs reload'

unfoldable pub observe : List Record → ℕ
unfolding observe_from
observe records = observe_from records false

-- The observer is installed if the function `unsupportedBrowser` itself passes the `if`, not what it
-- returns: functions always do.
abbrev pub observer_installed : Navigator → Bool
observer_installed n = true

-- A record that says that the overlay was removed.
removes_overlay : Record → Bool
removes_overlay r = any (λ id. same_text id overlay_id) r

scan_nodes_lem : (r : Record) (reload : Bool) → scan_nodes r reload ≡ reload || removes_overlay r
unfolding scan_nodes removes_overlay
scan_nodes_lem [] reload = ground arith
scan_nodes_lem (id ∷ r) reload =
    ground (arith, scan_nodes_lem r (if same_text id overlay_id then true else reload))

-- The records from the first one on that removes the overlay.
pub from_removal : List Record → List Record
unfolding removes_overlay
from_removal [] = []
from_removal (r ∷ rs) = let later = from_removal rs in if removes_overlay r then r ∷ rs else later

observe_reloading : (rs : List Record) → observe_from rs true ≡ length rs
unfolding observe_from
observe_reloading [] = refl
observe_reloading (r ∷ rs) = rw (scan_nodes_lem r true) (omega (arith, observe_reloading rs))

-- The page is reloaded once for the record that removes the overlay and for each record behind it,
-- and not at all if no record does.
pub observe_lem : (rs : List Record) → observe rs ≡ length (from_removal rs)
unfolding observe from_removal
observe_lem [] = refl
observe_lem (r ∷ rs) = elim (Bool-cases (removes_overlay r)) [
  | inl e ↦ rw (scan_nodes_lem r false, e) (omega (arith, observe_reloading rs))
  | inr e ↦ rw (scan_nodes_lem r false, e) (omega (arith, observe_lem rs))
]

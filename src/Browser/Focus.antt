-- ===== src/Browser/Focus.antt =====
-- `windowFocusChange` and `visibilityCheck` of client/src/appsupport.js.
use dark.Common.{
  ◌≡◌, sym, ap, ◌∙◌, Bool, true, false, not, Option, none, some, List, [], ◌∷◌, ◌++◌, append_assoc,
  append-nil, arith, if◌then◌else◌,
}

-- The properties that tell whether the page is hidden, in the order in which they are tried; `none`
-- is `undefined`.
pub record Document : Type 0 where
  pub hidden : Option Bool
  pub moz_hidden : Option Bool
  pub ms_hidden : Option Bool
  pub webkit_hidden : Option Bool

-- `pageHidden`, and the details of the `windowFocusChange` events dispatched so far.
pub record Page : Type 0 where
  pub page_hidden : Bool
  pub changes : List Bool

unfoldable pub window_focus_change : Bool → Page → Page
window_focus_change visible p = record p { changes = p.changes ++ visible ∷ [] }

abbrev pub first_known : Option Bool → Bool → Bool
first_known none later = later
first_known (some b) later = b

unfoldable pub is_hidden : Document → Bool
is_hidden d =
    first_known d.hidden
      (first_known d.moz_hidden (first_known d.ms_hidden (first_known d.webkit_hidden false)))

abbrev same_bool : Bool → Bool → Bool
same_bool a b = if a then b else not b

-- `visibilityCheck`
unfoldable pub visibility_check : Document → Page → Page
unfolding is_hidden window_focus_change
visibility_check d p =
    let hidden = is_hidden d in
    if same_bool p.page_hidden hidden
    then p
    else record (window_focus_change hidden p) { page_hidden = hidden }

-- `window.onfocus` and `window.onblur`
unfoldable pub on_focus : Page → Page
unfolding window_focus_change
on_focus p = window_focus_change true p

unfoldable pub on_blur : Page → Page
unfolding window_focus_change
on_blur p = window_focus_change false p

-- `setInterval(visibilityCheck, 2000)`, with what the document says each time.
unfoldable pub checks : List Document → Page → Page
unfolding visibility_check
checks [] p = p
checks (d ∷ ds) p = checks ds (visibility_check d p)

-- The values of `hidden` that differ from the one before.
pub flips : Bool → List Document → List Bool
unfolding is_hidden
flips before [] = []
flips before (d ∷ ds) =
    let rest = flips (is_hidden d) ds in
    if same_bool before (is_hidden d) then rest else is_hidden d ∷ rest

change : Bool → Bool → List Bool
change before hidden = if same_bool before hidden then [] else hidden ∷ []

change-flips :
    (before hidden : Bool) (rest : List Bool)
    → change before hidden ++ rest ≡ (if same_bool before hidden then rest else hidden ∷ rest)
unfolding change
change-flips before hidden rest = ground arith

visibility_check-changes :
    (d : Document) (p : Page)
    → (visibility_check d p).changes ≡ p.changes ++ change p.page_hidden (is_hidden d)
unfolding visibility_check change
visibility_check-changes d p = ground (arith, append-nil p.changes)

visibility_check-page_hidden :
    (d : Document) (p : Page) → (visibility_check d p).page_hidden ≡ is_hidden d
unfolding visibility_check
visibility_check-page_hidden d p = ground arith

-- Over a sequence of checks, an event is dispatched exactly where the page is hidden or shown unlike
-- at the check before, and its detail says whether it is hidden.
pub checks-flips :
    (ds : List Document) (p : Page) → (checks ds p).changes ≡ p.changes ++ flips p.page_hidden ds
unfolding checks flips
checks-flips [] p = sym (append-nil p.changes)
checks-flips (d ∷ ds) p =
    checks-flips ds (visibility_check d p)
    ∙ rw (visibility_check-changes d p, visibility_check-page_hidden d p)
        (append_assoc p.changes (change p.page_hidden (is_hidden d)) _
          ∙ ap (λ t. p.changes ++ t) (change-flips p.page_hidden (is_hidden d) _))

-- A check that finds the page newly hidden dispatches the event that gaining the focus dispatches,
-- and one that finds it newly shown dispatches the event that losing the focus dispatches.
pub check_inverted :
    (d : Document) (p : Page)
    → is_hidden d ≡ not p.page_hidden
    → (visibility_check d p).changes
      ≡ (if is_hidden d then (on_focus p).changes else (on_blur p).changes)
unfolding visibility_check on_focus on_blur
check_inverted d p h = ground arith

-- ===== src/Browser/Wheel.antt =====
-- `addWheelListener` of client/src/appsupport.js.
use dark.Common.{
  ℕ, ◌≡◌, Bool, not, Option, none, some, List, [], ◌∷◌, ◌++◌, Chars, codes, arith, if◌then◌else◌,
  length, All, is_prefix, same_text,
}

-- What is asked of the browser: `window.addEventListener`, `"onwheel" in document.createElement("div")`,
-- and whether `document.onmousewheel` is not undefined.
pub record Features : Type 0 where
  pub has_add_event_listener : Bool
  pub has_onwheel : Bool
  pub has_onmousewheel : Bool

pub data Support : Type 0 where
  wheel : Support
  mousewheel : Support
  dom_mouse_scroll : Support

-- `support`
unfoldable pub support_of : Features → Support
support_of b =
    if b.has_onwheel then wheel else if b.has_onmousewheel then mousewheel else dom_mouse_scroll

abbrev pub event_name : Support → Chars
event_name wheel = codes "wheel"
event_name mousewheel = codes "mousewheel"
event_name dom_mouse_scroll = codes "DOMMouseScroll"

-- A call of `elem[_addEventListener]`, with `false` for `useCapture`.
pub record Registration : Type 0 where
  pub method : Chars
  pub event : Chars

unfoldable pub add_wheel_listener_named : Features → Chars → Registration
add_wheel_listener_named b name =
    if b.has_add_event_listener
    then record { method = codes "addEventListener"; event = name }
    else record { method = codes "attachEvent"; event = codes "on" ++ name }

-- `listener`
abbrev listen : Features → Support → List Registration
listen b dom_mouse_scroll =
    add_wheel_listener_named b (codes "DOMMouseScroll")
    ∷ add_wheel_listener_named b (codes "MozMousePixelScroll")
    ∷ []
listen b s = add_wheel_listener_named b (event_name s) ∷ []

unfoldable pub add_wheel_listener : Features → List Registration
unfolding support_of
add_wheel_listener b = listen b (support_of b)

-- The fields of an event that the handler reads; a number may be undefined.
pub record WheelEvent (F : Type 0) : Type 0 where
  pub type : Chars
  pub wheel_delta : F
  pub wheel_delta_x : Option F
  pub delta_y : Option F
  pub detail : F

pub record Normalized (F : Type 0) : Type 0 where
  pub delta_mode : ℕ
  pub delta_x : F
  pub delta_y : F

-- The numbers of JavaScript: 0, the product with -1/40, and whether a number passes an `if`.
pub record Numbers (F : Type 0) : Type 0 where
  pub nought : F
  pub scaled : F → F
  pub truthy : F → Bool

module _ {F : Type 0} (numbers : Numbers F) where
  -- `a || b`, and `a && (x = …)`, for a number that may be undefined.
  abbrev or_number : Option F → F → F
  or_number none b = b
  or_number (some a) b = if numbers.truthy a then a else b

  abbrev scaled_or_nought : Option F → F
  scaled_or_nought none = numbers.nought
  scaled_or_nought (some a) = if numbers.truthy a then numbers.scaled a else numbers.nought

  abbrev deltas : Support → WheelEvent F → F × F
  deltas mousewheel e = (scaled_or_nought e.wheel_delta_x, numbers.scaled e.wheel_delta)
  deltas s e = (numbers.nought, or_number e.delta_y e.detail)

  -- The event object that the handler builds.
  unfoldable pub normalize : Support → WheelEvent F → Normalized F
  normalize s e = record {
    delta_mode = (if same_text e.type (codes "MozMousePixelScroll") then 0 else 1);
    delta_x = (deltas s e).0;
    delta_y = (deltas s e).1;
  }

-- The page listens for one event, or for two where the browser knows none of the standard ones. The
-- method is `attachEvent`, and the names begin with `on`, exactly where there is no
-- `addEventListener`.
pub add_wheel_listener_lem :
    (b : Features)
    → let rs = add_wheel_listener b in
      (length rs ≡ (if b.has_onwheel then 1 else if b.has_onmousewheel then 1 else 2))
      × All
          (λ r.
            (is_prefix (codes "on") r.event ≡ not b.has_add_event_listener)
            × (same_text r.method (codes "attachEvent") ≡ not b.has_add_event_listener))
          rs
unfolding add_wheel_listener add_wheel_listener_named is_prefix same_text
add_wheel_listener_lem b = ground arith

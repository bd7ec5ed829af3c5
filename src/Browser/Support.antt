-- ===== src/Browser/Support.antt =====
-- The check for an unsupported browser, which client/src/appsupport.js and
-- client/src/unsupportedBrowser.js both hold, and the observer of the overlay.
use dark.Common.{
  ◌≡◌, ◌↔◌, refl, ◌⊎◌, inl, inr, Bool, true, false, not, ◌&&◌, ◌||◌, List, [], ◌∷◌, Chars, codes,
  arith, All,
}
use dark.Common.{contains, any}
use dark.Common.Occurs.{Occurs, contains_sound, contains_complete, not_contains, not_Occurs}

pub record Navigator : Type 0 where
  pub user_agent : Chars
  pub vendor : Chars

unfoldable pub is_chrome : Navigator → Bool
is_chrome n = contains (codes "Chrome") n.user_agent && contains (codes "Google Inc") n.vendor

-- The words of the regular expression for mobile browsers.
abbrev pub mobile_words : List Chars
mobile_words =
    codes "Android"
    ∷ codes "BlackBerry"
    ∷ codes "iPhone"
    ∷ codes "iPad"
    ∷ codes "iPod"
    ∷ codes "Opera Mini"
    ∷ codes "IEMobile"
    ∷ []

unfoldable pub is_mobile : Navigator → Bool
is_mobile n = any (λ w. contains w n.user_agent) mobile_words

unfoldable pub is_desktop_app : Navigator → Bool
is_desktop_app n = contains (codes "DarkLang/Editor") n.user_agent

-- `unsupportedBrowser`
unfoldable pub unsupported_browser : Navigator → Bool
unsupported_browser n =
    let is_supported = is_desktop_app n || (is_chrome n && not (is_mobile n)) in not is_supported

-- What the comment on the overlay says: desktop Chrome, or the desktop client.
abbrev pub IsSupported : Navigator → Type 0
IsSupported n =
    Occurs (codes "DarkLang/Editor") n.user_agent
    ⊎ (Occurs (codes "Chrome") n.user_agent
        × Occurs (codes "Google Inc") n.vendor
        × All (λ w. ¬ Occurs w n.user_agent) mobile_words)

any-All :
    (s : Chars) (ws : List Chars) → any (λ w. contains w s) ws ≡ false → All (λ w. ¬ Occurs w s) ws
any-All s [] h = tt
any-All s (w ∷ ws) h =
    let here : contains w s ≡ false = ground arith in
    let later : any (λ w. contains w s) ws ≡ false = ground arith in
    (not_contains w s here, any-All s ws later)

All-any :
    (s : Chars) (ws : List Chars) → All (λ w. ¬ Occurs w s) ws → any (λ w. contains w s) ws ≡ false
All-any s [] h = refl
All-any s (w ∷ ws) (h, hs) = rw (not_Occurs w s h) (All-any s ws hs)

logic :
    (app chrome mobile : Bool)
    → (not (app || (chrome && not mobile)) ≡ false)
    → (app ≡ true) ⊎ ((chrome ≡ true) × (mobile ≡ false))
logic true chrome mobile h = inl refl
logic false true false h = inr (refl, refl)
logic false true true h = cc
logic false false mobile h = cc

module _ (n : Navigator) where
  chrome_sound :
      is_chrome n ≡ true
      → Occurs (codes "Chrome") n.user_agent × Occurs (codes "Google Inc") n.vendor
  unfolding is_chrome
  chrome_sound h = (
    contains_sound (codes "Chrome") _ (ground arith),
    contains_sound (codes "Google Inc") _ (ground arith),
  )

  chrome_complete :
      Occurs (codes "Chrome") n.user_agent
      → Occurs (codes "Google Inc") n.vendor
      → is_chrome n ≡ true
  unfolding is_chrome
  chrome_complete c g = rw (contains_complete _ _ c, contains_complete _ _ g)

  mobile_sound : is_mobile n ≡ false → All (λ w. ¬ Occurs w n.user_agent) mobile_words
  unfolding is_mobile
  mobile_sound h = any-All n.user_agent mobile_words h

  mobile_complete : All (λ w. ¬ Occurs w n.user_agent) mobile_words → is_mobile n ≡ false
  unfolding is_mobile
  mobile_complete h = All-any n.user_agent mobile_words h

  app_sound : is_desktop_app n ≡ true → Occurs (codes "DarkLang/Editor") n.user_agent
  unfolding is_desktop_app
  app_sound h = contains_sound _ _ h

  app_complete : Occurs (codes "DarkLang/Editor") n.user_agent → is_desktop_app n ≡ true
  unfolding is_desktop_app
  app_complete o = contains_complete _ _ o

  IsSupported-sound : unsupported_browser n ≡ false → IsSupported n
  unfolding unsupported_browser
  IsSupported-sound h = elim (logic (is_desktop_app n) (is_chrome n) (is_mobile n) h) [
    | inl app ↦ inl (app_sound app)
    | inr (chrome, desktop) ↦ let (c, g) = chrome_sound chrome in inr (c, g, mobile_sound desktop)
  ]

  IsSupported-complete : IsSupported n → unsupported_browser n ≡ false
  unfolding unsupported_browser
  IsSupported-complete (inl app) = rw (app_complete app)
  IsSupported-complete (inr (c, g, desktop)) =
      let chrome : is_chrome n ≡ true = chrome_complete c g in
      let still : is_mobile n ≡ false = mobile_complete desktop in ground arith

-- The check passes exactly the browsers that `IsSupported` describes.
pub IsSupported-iff : (n : Navigator) → (unsupported_browser n ≡ false) ↔ IsSupported n
IsSupported-iff n = (IsSupported-sound n, IsSupported-complete n)

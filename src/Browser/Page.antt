-- ===== src/Browser/Page.antt =====
-- The function `unsupportedBrowser` of client/src/unsupportedBrowser.js, which that page has of its
-- own.
use dark.Common.{◌≡◌, refl, Bool, not, ◌&&◌, ◌||◌, codes, contains, any}
use dark.Browser.Support.{Navigator, mobile_words}
use dark.Browser.Support

unfoldable pub unsupported_browser : Navigator → Bool
unfolding contains
unsupported_browser n =
    let is_chrome =
      contains (codes "Chrome") n.user_agent && contains (codes "Google Inc") n.vendor in
    let is_mobile = any (λ w. contains w n.user_agent) mobile_words in
    let is_desktop_app = contains (codes "DarkLang/Editor") n.user_agent in
    let is_supported = is_desktop_app || (is_chrome && not is_mobile) in not is_supported

-- Both pages come to the same answer.
pub unsupported_browser_same :
    (n : Navigator) → unsupported_browser n ≡ Support.unsupported_browser n
unfolding unsupported_browser Support.unsupported_browser Support.is_chrome Support.is_mobile
    Support.is_desktop_app
unsupported_browser_same n = refl
